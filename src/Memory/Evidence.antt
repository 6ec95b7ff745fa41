-- ===== src/Memory/Evidence.antt =====
-- The verification evidence of a ledger: entries of the browser stay, others up to a hundred.
use next_level_agent.Base.{
  ℕ, zero, suc, ◌+◌, ◌-◌, ◌≤◌, ◌≡◌, refl, sym, ap, ◌∙◌, String, Bool, false, not, List, [], ◌∷◌,
  select, take, leb, Bool-cases, inl, inr, arith, leb→le, le→leb,
}
use next_level_agent.Memory.Ledger.{bounded_evidence}

take-nil : (n : ℕ) → take {A = String} n [] ≡ []
take-nil zero = refl
take-nil (suc n) = refl

room : (n : ℕ) → n + 1 ≤ 100 → 100 - n ≡ suc (100 - (n + 1))
room n h = omega arith

full : (n : ℕ) → leb (n + 1) 100 ≡ false → 100 - n ≡ 0
full n h = ground arith

full_next : (n : ℕ) → leb (n + 1) 100 ≡ false → 100 - (n + 1) ≡ 0
full_next n h = ground arith

bounded_evidence-browser :
    (p : String → Bool) (n : ℕ) (es : List String)
    → select p (bounded_evidence p n es) ≡ select p es
unfolding bounded_evidence
bounded_evidence-browser p n [] = refl
bounded_evidence-browser p n (e ∷ es) =
    ground (arith, bounded_evidence-browser p n es, bounded_evidence-browser p (n + 1) es)

bounded_evidence-ordinary :
    (p : String → Bool) (n : ℕ) (es : List String)
    → select (λ e. not (p e)) (bounded_evidence p n es)
      ≡ take (100 - n) (select (λ e. not (p e)) es)
unfolding bounded_evidence
bounded_evidence-ordinary p n [] = sym (take-nil (100 - n))
bounded_evidence-ordinary p n (e ∷ es) = elim (Bool-cases (p e)) [
  | inl b ↦ rw (b, b) (bounded_evidence-ordinary p n es)
  | inr b ↦ elim (Bool-cases (leb (n + 1) 100)) [
    | inl c ↦
        rw (b, c, b, room n (leb→le (n + 1) 100 c))
          (ap (◌∷◌ e) (bounded_evidence-ordinary p (n + 1) es))
    | inr c ↦
        rw (b, c, full n c)
          (bounded_evidence-ordinary p (n + 1) es
            ∙ ap (λ k. take k (select (λ e'. not (p e')) es)) (full_next n c))
  ]
]

-- With fewer ordinary entries before it, a bounded list stays as it is.
pub bounded_evidence-again :
    (p : String → Bool) (n m : ℕ) (es : List String)
    → n ≤ m
    → bounded_evidence p n (bounded_evidence p m es) ≡ bounded_evidence p m es
unfolding bounded_evidence
bounded_evidence-again p n m [] h = refl
bounded_evidence-again p n m (e ∷ es) h = elim (Bool-cases (p e)) [
  | inl b ↦ rw (b, b) (ap (◌∷◌ e) (bounded_evidence-again p n m es h))
  | inr b ↦ elim (Bool-cases (leb (m + 1) 100)) [
    | inl c ↦
        rw (b, c, b, le→leb (n + 1) 100 (omega (arith, leb→le (m + 1) 100 c)))
          (ap (◌∷◌ e) (bounded_evidence-again p (n + 1) (m + 1) es (omega arith)))
    | inr c ↦ rw (b, c) (bounded_evidence-again p n (m + 1) es (omega arith))
  ]
]

-- No evidence of the browser is dropped, whatever its number, and of the ordinary evidence the first
-- hundred entries stay; both keep their order.
pub bounded_evidence-first :
    (p : String → Bool) (es : List String)
    → (select p (bounded_evidence p 0 es) ≡ select p es)
      × (select (λ e. not (p e)) (bounded_evidence p 0 es) ≡ take 100 (select (λ e. not (p e)) es))
bounded_evidence-first p es = (bounded_evidence-browser p 0 es, bounded_evidence-ordinary p 0 es)
