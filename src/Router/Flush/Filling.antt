-- ===== src/Router/Flush/Filling.antt =====
-- The loops of `flushIO` in core/router.go that fill a bundle from one map.
use mathlib.Core.List.{append_assoc}
use nylon.Base.{
  ℕ, ◌+◌, ◌<◌, ◌≤◌, ◌≡◌, ◌≢◌, ◌⊎◌, inl, inr, refl, sym, ap, ◌∙◌, true, false, not, ◌&&◌, List, [],
  ◌∷◌, ◌++◌, map, length, leb, ◌==◌, arith, Bool-cases,
}
use nylon.Router.Flush.{Filled, fill}

module _ {ℓ} {B : Type ℓ} (size : B → ℕ) where
  abbrev pub total : List B → ℕ
  total [] = 0
  total (x ∷ xs) = size x + total xs

  total-append : (xs ys : List B) → total (xs ++ ys) ≡ total xs + total ys
  total-append [] ys = omega arith
  total-append (x ∷ xs) ys = omega (arith, total-append xs ys)

  -- the bundle does not reach the limit, or is a single message
  abbrev pub IsShort : ℕ → List B → Type 0
  IsShort safe_mtu b = (total b < safe_mtu) ⊎ (length b ≤ 1)

  module _ {A : Type ℓ} (safe_mtu : ℕ) (make : A → B) (positive : (b : B) → 0 < size b) where
    pub empty_bundle : (b : List B) → total b ≡ 0 → b ≡ []
    empty_bundle [] h = refl
    empty_bundle (x ∷ xs) h = absurd (omega (arith, h, positive x))

    -- what a loop leaves and what it puts into the bundle
    pub record FilledWell (xs : List A) (b : List B) (r : Filled A B) : Type ℓ where
      pub kept : r.bundle ++ map make r.left ≡ b ++ map make xs
      pub measured : r.t_length ≡ total r.bundle
      pub done : r.full ≡ false → r.left ≡ []
      pub started : r.full ≡ true → r.t_length ≢ 0
      pub short : IsShort safe_mtu b → IsShort safe_mtu r.bundle

    next-IsShort :
        (b : List B) (x : A)
        → (total b ≡ 0) ⊎ (total b + size (make x) < safe_mtu)
        → IsShort safe_mtu (b ++ make x ∷ [])
    next-IsShort b x (inl e) = rw (empty_bundle b e) (inr (omega arith))
    next-IsShort b x (inr h) = inl (omega (arith, total-append b (make x ∷ []), h))

    pub fill_lem :
        (xs : List A) (b : List B) (t : ℕ)
        → t ≡ total b
        → FilledWell xs b (fill size safe_mtu make xs b t)
    unfolding fill
    fill_lem [] b t m = record {
      kept = refl;
      measured = m;
      done = λ e. refl;
      started = λ e. absurd (ground arith);
      short = λ s. s;
    }
    fill_lem (x ∷ xs) b t m =
        let req = make x in
        let ih =
          fill_lem xs (b ++ req ∷ []) (t + size req)
            (omega (arith, m, total-append b (req ∷ []))) in
        elim (Bool-cases (not (t == 0) && leb safe_mtu (t + size req))) [
          | inl e ↦
              rw (e, fill)
                (record {
                  kept = refl;
                  measured = m;
                  done = λ f. absurd (ground arith);
                  started = λ f. ground arith;
                  short = λ s. s;
                })
          | inr e ↦
              rw (e, fill)
                (record {
                  kept = ih.kept ∙ append_assoc b (req ∷ []) (map make xs);
                  measured = ih.measured;
                  done = ih.done;
                  started = ih.started;
                  short = λ s. ih.short (next-IsShort b x (ground arith));
                })
        ]

module _ {ℓ} {B : Type ℓ} where
  -- the first loop of a chain, with what follows it
  pub join_kept : (b left all rest : List B) → b ++ left ≡ all → b ++ (left ++ rest) ≡ all ++ rest
  join_kept b left all rest e = sym (append_assoc b left rest) ∙ ap (λ l. l ++ rest) e

  abbrev pub concat : List (List B) → List B
  concat [] = []
  concat (b ∷ bs) = b ++ concat bs
