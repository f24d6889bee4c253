-- ===== src/Operation/Evidence.antt =====
-- What a response has to say before an operation counts as safe to retry.
use wsync.Prelude.{
  ◌≡◌, refl, Bool, true, false, not, ◌&&◌, Option, none, some, Text, codes, text_eq, text_eq_iff,
  if◌then◌else◌, Bool-cases, ap, inl, inr,
}
use wsync.Operation.{
  Json, ResponseFrame, Receipt, unknown, completed, partial, not_started, op_is, and_then,
  is_positive, is_bool, bool_field, u64_field, task_failed, reported, completion, conclude,
}

-- The completion that the plugin itself reports.
abbrev pub plugin_says : (j : Json) → ResponseFrame j → Option Text
plugin_says j response = and_then j.as_str (and_then (j.get (codes "completion")) response.meta)

others :
    (b c : Bool)
    → text_eq (if b then completed else (if c then partial else unknown)) not_started ≡ false
others true c = refl
others false true = refl
others false false = refl

reported-not_started :
    (o : Option Text) → text_eq (reported o) not_started ≡ true → o ≡ some not_started
unfolding reported
reported-not_started none h = cc
reported-not_started (some t) h = elim (Bool-cases (text_eq t not_started)) [
  | inl e ↦ ap some ((text_eq_iff t not_started).0 e)
  | inr e ↦ let no = others (text_eq t completed) (text_eq t partial) in cc
]

chain :
    (b1 b2 b3 b4 : Bool) (t : Text)
    → text_eq
        (if b1
          then unknown
          else (if b2 then completed else (if b3 then partial else (if b4 then partial else t))))
        not_started
      ≡ true
    → (b2 ≡ false) × (b3 ≡ false) × (b4 ≡ false) × (text_eq t not_started ≡ true)
chain true b2 b3 b4 t h = cc
chain false true b3 b4 t h = cc
chain false false true b4 t h = cc
chain false false false true t h = cc
chain false false false false t h = (refl, refl, refl, h)

-- What makes a completion `notStarted`: the plugin says so itself, it reports no mutation, a
-- `set_batch` applied nothing, and the response is a failure or its task failed.
pub record IsExplicit (j : Json) (response : ResponseFrame j) (op : Option Text) : Type 0 where
  pub says : plugin_says j response ≡ some not_started
  pub unmutated : is_bool true (bool_field j (codes "mutation") response.meta) ≡ false
  pub unapplied :
      op_is (codes "set_batch") op && is_positive (u64_field j (codes "applied") response.value)
      ≡ false
  pub failed : response.ok && not (task_failed response op) ≡ false

module _ {j : Json} where
  -- A receipt that was not finished becomes safe to retry only by a response of which all of this
  -- holds: the plugin itself says `notStarted`, it reports no mutation, a `set_batch` applied
  -- nothing, and the response is a failure or the task in it failed.
  pub retry_safe-IsExplicit :
      (response : ResponseFrame j) (op : Option Text) (error_code : Option Text) (r : Receipt)
      → r.finished ≡ false
      → (conclude (completion response op) error_code r).retry_safe ≡ true
      → IsExplicit j response op
  unfolding conclude completion
  retry_safe-IsExplicit response op error_code r unfinished safe =
      let (failed, unapplied, unmutated, says) = chain _ _ _ _ _ (rw unfinished at safe) in
      record {
        says = reported-not_started (plugin_says j response) says;
        unmutated = unmutated;
        unapplied = unapplied;
        failed = failed;
      }
