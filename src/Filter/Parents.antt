-- ===== src/Filter/Parents.antt =====
-- The loop of `IsBlocked` over the parents of a domain, against their description.
use dns_server_mandiri.Filter.{Names, contains, parent_loop}
use dns_server_mandiri.Prelude.Strings.{split, join, dot, cons_head, split-ne-nil, join-split}
use dns_server_mandiri.Prelude.Text.{Text}
use dns_server_mandiri.Prelude.{
  ℕ, ◌≡◌, ◌≢◌, ◌↔◌, refl, Bool, true, false, ◌||◌, List, [], ◌∷◌, ◌++◌, arith, ◌==◌, Bool-cases,
  inl, inr, if◌then◌else◌, ◌∙◌, ap, ◌⊎◌, sym,
}

-- A listed name that stands behind a dot of the text.
scan : Names → Text → Bool
scan blocked [] = false
scan blocked (c ∷ s) =
    (if c == dot then contains (s ++ (dot ∷ [])) blocked else false) || scan blocked s

loop-cons_head :
    (blocked : Names) (c : ℕ) (ps : List Text)
    → parent_loop blocked (cons_head c ps) ≡ parent_loop blocked ps
unfolding parent_loop
loop-cons_head blocked c [] = refl
loop-cons_head blocked c (p ∷ []) = refl
loop-cons_head blocked c (p ∷ q ∷ ps) = refl

loop-nil_cons :
    (blocked : Names) (ps : List Text)
    → ps ≢ []
    → parent_loop blocked ([] ∷ ps)
      ≡ (contains (join ps ++ (dot ∷ [])) blocked || parent_loop blocked ps)
unfolding parent_loop
loop-nil_cons blocked [] h = absurd (h refl)
loop-nil_cons blocked (p ∷ ps) h = refl

loop-split : (blocked : Names) (s : Text) → parent_loop blocked (split s) ≡ scan blocked s
unfolding split scan parent_loop
loop-split blocked [] = refl
loop-split blocked (c ∷ s) = elim (Bool-cases (c == dot)) [
  | inl e ↦
      rw e
        (loop-nil_cons blocked (split s) (split-ne-nil s) ∙ rw (join-split s, loop-split blocked s))
  | inr e ↦ rw e (loop-cons_head blocked c (split s) ∙ loop-split blocked s)
]

-- A name of the list of which the text is a proper subdomain.
pub record ParentIn (blocked : Names) (s : Text) : Type 0 where
  pub sub : Text
  pub parent : Text
  pub below : s ≡ sub ++ (dot ∷ parent)
  pub listed : contains (parent ++ (dot ∷ [])) blocked ≡ true

scan_complete :
    (blocked : Names) (sub parent : Text)
    → contains (parent ++ (dot ∷ [])) blocked ≡ true
    → scan blocked (sub ++ (dot ∷ parent)) ≡ true
unfolding scan
scan_complete blocked [] parent h = ground arith
scan_complete blocked (c ∷ sub) parent h = ground (arith, scan_complete blocked sub parent h)

scan_sound : (blocked : Names) (s : Text) → scan blocked s ≡ true → ParentIn blocked s
unfolding scan
scan_sound blocked [] h = ground arith
scan_sound blocked (c ∷ s) h = pick (Bool-cases (scan blocked s)) (scan_sound blocked s)
  where
    first : scan blocked s ≡ false → ParentIn blocked (c ∷ s)
    first out = record { sub = []; parent = s; below = ground arith; listed = ground arith }

    later : ParentIn blocked s → ParentIn blocked (c ∷ s)
    later p = record {
      sub = c ∷ p.sub;
      parent = p.parent;
      below = ap (◌∷◌ c) p.below;
      listed = p.listed;
    }

    pick :
        (scan blocked s ≡ true) ⊎ (scan blocked s ≡ false)
        → (scan blocked s ≡ true → ParentIn blocked s)
        → ParentIn blocked (c ∷ s)
    pick (inl e) ih = later (ih e)
    pick (inr e) ih = first e

-- The loop finds a parent exactly when the text is a proper subdomain of a name of the list.
pub parent_loop_iff :
    (blocked : Names) (s : Text) → (parent_loop blocked (split s) ≡ true) ↔ ParentIn blocked s
parent_loop_iff blocked s = (
  λ h. scan_sound blocked s (sym (loop-split blocked s) ∙ h),
  λ p.
      loop-split blocked s
      ∙ (ap (scan blocked) p.below ∙ scan_complete blocked p.sub p.parent p.listed),
)
