-- ===== src/Debouncer/Echoes.antt =====
-- Which paths src/vfs/debouncer.rs takes for echoes of its own writes.
use wsync.Prelude.{
  ℕ, ◌-◌, ◌≡◌, refl, true, false, ◌||◌, List, [], ◌∷◌, text_eq, text_eq_iff, ltb, any, retain,
  Bool-cases, inl, inr, arith,
}
use wsync.Debouncer.{FilePath, path_eq, self_write_memory, set_written, is_written}

pub path_eq-same : (p q : FilePath) → path_eq p q ≡ true → p ≡ q
path_eq-same [] [] e = refl
path_eq-same [] (b ∷ q) e = absurd (cc)
path_eq-same (a ∷ p) [] e = absurd (cc)
path_eq-same (a ∷ p) (b ∷ q) e = elim (Bool-cases (text_eq a b)) [
  | inl y ↦ cc ((text_eq_iff a b).0 y, path_eq-same p q (ground (arith, y)))
  | inr n ↦ absurd (ground (arith, n))
]

pub is_written-set :
    (p q : FilePath) (now : ℕ) (ws : List (FilePath × ℕ))
    → is_written (set_written p now ws) q ≡ (path_eq p q || is_written ws q)
is_written-set p q now [] = ground arith
is_written-set p q now ((r, t) ∷ ws) = elim (Bool-cases (path_eq p r)) [
  | inl y ↦ rw (path_eq-same p r y) (ground (arith, path_eq-same p r y, y))
  | inr n ↦ ground (arith, n, is_written-set p q now ws)
]

pub is_echo-set :
    (p : FilePath) (now : ℕ) (ws : List (FilePath × ℕ)) (qs : List FilePath)
    → any (is_written (set_written p now ws)) qs ≡ (any (path_eq p) qs || any (is_written ws) qs)
is_echo-set p now ws [] = refl
is_echo-set p now ws (q ∷ qs) = ground (arith, is_written-set p q now ws, is_echo-set p now ws qs)

pub is_written-retain :
    (now : ℕ) (ws : List (FilePath × ℕ)) (q : FilePath)
    → is_written ws q ≡ false
    → is_written (retain (λ w. ltb (now - w.1) self_write_memory) ws) q ≡ false
is_written-retain now [] q e = refl
is_written-retain now ((p, t) ∷ ws) q e = ground (arith, is_written-retain now ws q)

pub is_echo-retain :
    (now : ℕ) (ws : List (FilePath × ℕ)) (qs : List FilePath)
    → any (is_written ws) qs ≡ false
    → any (is_written (retain (λ w. ltb (now - w.1) self_write_memory) ws)) qs ≡ false
is_echo-retain now ws [] e = refl
is_echo-retain now ws (q ∷ qs) e =
    ground (arith, is_written-retain now ws q, is_echo-retain now ws qs)

pub no_writes-is_echo : (qs : List FilePath) → any (is_written []) qs ≡ false
no_writes-is_echo [] = refl
no_writes-is_echo (q ∷ qs) = no_writes-is_echo qs
