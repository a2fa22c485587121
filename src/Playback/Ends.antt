-- ===== src/Playback/Ends.antt =====
-- The ends of the delivered media, per track (src/playback_control.rs): their minimum, and writes.
use dashplay_rs.Prelude.{
  ℕ, ◌∙◌, ap, zero, suc, ◌+◌, ◌-◌, ◌≤◌, ◌≡◌, refl, ◌≢◌, inl, inr, Option, none, some, List, [], ◌∷◌,
  ◌++◌, arith, unwrap_or, replicate, length, some, Option-cases, length-append, length-replicate,
  get_elem?-set_self, get_elem?-set_ne,
}
use dashplay_rs.Playback.Clock

-- No track's delivered media ends before `t`.
abbrev pub Covers : List (Option ℕ) → ℕ → Type 0
Covers ends t = (i e : ℕ) → Clock.end_of i ends ≡ some e → t ≤ e

-- A track that has delivered leaves the minimum defined.
min_delivered_end-none :
    (ends : List (Option ℕ)) (i e : ℕ)
    → Clock.min_delivered_end ends ≡ none
    → Clock.end_of i ends ≢ some e
unfolding Clock.min_delivered_end Clock.end_of
min_delivered_end-none [] i e q r = ground arith
min_delivered_end-none (none ∷ ends) zero e q r = ground arith
min_delivered_end-none (none ∷ ends) (suc i) e q r = min_delivered_end-none ends i e q r
min_delivered_end-none (some v ∷ ends) i e q r =
    elim (Option-cases (Clock.min_delivered_end ends)) [
      | inl z ↦ ground arith
      | inr (u, z) ↦ ground arith
    ]

-- The minimum is a lower bound of what is delivered.
min_delivered_end-Covers :
    (ends : List (Option ℕ)) (m : ℕ) → Clock.min_delivered_end ends ≡ some m → Covers ends m
unfolding Clock.min_delivered_end Clock.end_of
min_delivered_end-Covers [] m h i e p = ground arith
min_delivered_end-Covers (none ∷ ends) m h zero e p = ground arith
min_delivered_end-Covers (none ∷ ends) m h (suc i) e p = min_delivered_end-Covers ends m h i e p
min_delivered_end-Covers (some t ∷ ends) m h zero e p =
    elim (Option-cases (Clock.min_delivered_end ends)) [
      | inl q ↦ ground arith
      | inr (u, q) ↦ ground arith
    ]
min_delivered_end-Covers (some t ∷ ends) m h (suc i) e p =
    elim (Option-cases (Clock.min_delivered_end ends)) [
      | inl q ↦ absurd (min_delivered_end-none ends i e q p)
      | inr (u, q) ↦ ground (arith, min_delivered_end-Covers ends u q i e p)
    ]

min_delivered_end-greatest :
    (ends : List (Option ℕ)) (m t : ℕ)
    → Clock.min_delivered_end ends ≡ some m
    → Covers ends t
    → t ≤ m
unfolding Clock.min_delivered_end Clock.end_of
min_delivered_end-greatest [] m t h v = ground arith
min_delivered_end-greatest (none ∷ ends) m t h v =
    min_delivered_end-greatest ends m t h (λ i. v (suc i))
min_delivered_end-greatest (some u ∷ ends) m t h v =
    elim (Option-cases (Clock.min_delivered_end ends)) [
      | inl q ↦ ground (arith, v 0 u refl)
      | inr (w, q) ↦
          ground (arith, v 0 u refl, min_delivered_end-greatest ends w t q (λ i. v (suc i)))
    ]

-- Holding a step back to the minimum keeps it within what is delivered, and never moves it back.
pub capped-Covers :
    (ends : List (Option ℕ)) (t u : ℕ)
    → Covers ends t
    → t ≤ u
    → (t ≤ Clock.capped u (Clock.min_delivered_end ends))
      × Covers ends (Clock.capped u (Clock.min_delivered_end ends))
unfolding Clock.capped
capped-Covers ends t u v h = elim (Option-cases (Clock.min_delivered_end ends)) [
  | inl q ↦ rw (q, Clock.capped) (h, λ i e p. absurd (min_delivered_end-none ends i e q p))
  | inr (m, q) ↦
      rw (q, Clock.capped)
        (
          ground (arith, min_delivered_end-greatest ends m t q v),
          λ i e p. ground (arith, min_delivered_end-Covers ends m q i e p),
        )
]

-- Growing the list of tracks by tracks that have delivered nothing shows at no index.
end_of-append :
    (i k : ℕ) (ends : List (Option ℕ))
    → Clock.end_of i (ends ++ replicate k none) ≡ Clock.end_of i ends
unfolding Clock.end_of
end_of-append i zero [] = refl
end_of-append zero (suc k) [] = refl
end_of-append (suc i) (suc k) [] = end_of-append i k []
end_of-append zero k (e ∷ ends) = refl
end_of-append (suc i) k (e ∷ ends) = end_of-append i k ends

pub end_of-set_end_self :
    (i : ℕ) (v : Option ℕ) (ends : List (Option ℕ)) → Clock.end_of i (Clock.set_end i v ends) ≡ v
unfolding Clock.end_of Clock.set_end
end_of-set_end_self i v ends =
    let k = i + 1 - length ends in
    rw (
      get_elem?-set_self (ends ++ replicate k none) i v (
        omega
          (arith, length-append ends (replicate k none), length-replicate {A = Option ℕ} k none)))

pub end_of-set_end_ne :
    (i j : ℕ) (v : Option ℕ) (ends : List (Option ℕ))
    → i ≢ j
    → Clock.end_of j (Clock.set_end i v ends) ≡ Clock.end_of j ends
unfolding Clock.set_end
end_of-set_end_ne i j v ends h =
    let k = i + 1 - length ends in
    unfold Clock.end_of in
    ap (λ o. unwrap_or o none) (get_elem?-set_ne (ends ++ replicate k none) i j v h)
    ∙ end_of-append j k ends
