-- ===== src/Queue/Fifo.antt =====
-- The laws of the channels that src/core/queue.rs takes from crossbeam_channel hold of a list of messages,
-- the oldest first.
use wsync.Prelude.{◌≡◌, refl, Option, none, some, List, [], ◌∷◌, ◌++◌, length}
use wsync.Queue.{Crossbeam, IsFifo, uncons}

abbrev pub oldest : {A : Type 0} → List A → Option (List A × A)
oldest [] = none
oldest (m ∷ ms) = some (ms, m)

abbrev pub list_channels : Crossbeam
list_channels = record {
  Chan = List;
  unbounded = [];
  send_to_chan = λ m c. c ++ m ∷ [];
  recv = oldest;
  len = length;
}

pub uncons-oldest : {A : Type 0} (c : List A) → c ≡ uncons (λ l. l) (oldest c)
uncons-oldest [] = refl
uncons-oldest (m ∷ ms) = refl

abbrev pub list_channels-IsFifo : IsFifo list_channels
list_channels-IsFifo = record {
  contents = λ c. c;
  contents_unbounded = refl;
  contents_send = λ m c. refl;
  contents_recv = λ c. uncons-oldest c;
  contents_len = λ c. refl;
}
