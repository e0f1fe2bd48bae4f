-- ===== src/Prelude/Strings.antt =====
-- What the program uses of the package `strings`, over texts of ASCII bytes.
use Prim.Native.Nat.{ℕ, ◌+◌, ◌-◌}
use mathlib.Core.Bool.{Bool, true, false, ◌&&◌, ◌||◌}
use mathlib.Core.List.{List, [], ◌∷◌, ◌++◌, map}
use mathlib.Core.Logic.{◌≢◌, inl, inr}
use mathlib.Core.Path.{◌≡◌, refl, ◌∙◌, ap}
use native.Mathlib.Omega.{arith}
use dns_server_mandiri.Prelude.Tests.{==_iff, leb, ◌==◌, if◌then◌else◌, Bool-cases}
use dns_server_mandiri.Prelude.Text.{Text, text}

abbrev pub dot : ℕ
dot = b'.'

abbrev pub lower : ℕ → ℕ
lower c = if leb b'A' c && leb c b'Z' then c + 32 else c

abbrev pub upper : ℕ → ℕ
upper c = if leb b'a' c && leb c b'z' then c - 32 else c

unfoldable pub to_lower : Text → Text
to_lower s = map lower s

unfoldable pub to_upper : Text → Text
to_upper s = map upper s

unfoldable pub has_prefix : Text → Text → Bool
has_prefix s [] = true
has_prefix [] (p ∷ ps) = false
has_prefix (c ∷ s) (p ∷ ps) = c == p && has_prefix s ps

-- `HasSuffix(s, ".")`
unfoldable pub ends_with_dot : Text → Bool
ends_with_dot [] = false
ends_with_dot (c ∷ []) = c == dot
ends_with_dot (c ∷ d ∷ s) = ends_with_dot (d ∷ s)

-- `TrimSuffix(s, ".")`
unfoldable pub trim_dot : Text → Text
trim_dot [] = []
trim_dot (c ∷ []) = if c == dot then [] else c ∷ []
trim_dot (c ∷ d ∷ s) = c ∷ trim_dot (d ∷ s)

-- `if !HasSuffix(s, ".") { s += "." }`
unfoldable pub with_dot : Text → Text
with_dot s = if ends_with_dot s then s else s ++ (dot ∷ [])

abbrev pub cons_head : ℕ → List Text → List Text
cons_head c [] = (c ∷ []) ∷ []
cons_head c (p ∷ ps) = (c ∷ p) ∷ ps

-- `Split(s, ".")`
unfoldable pub split : Text → List Text
split [] = [] ∷ []
split (c ∷ s) = let rest = split s in if c == dot then [] ∷ rest else cons_head c rest

-- `Join(parts, ".")`
unfoldable pub join : List Text → Text
join [] = []
join (p ∷ []) = p
join (p ∷ q ∷ ps) = p ++ (dot ∷ join (q ∷ ps))

-- The ASCII characters that `TrimSpace` and `Fields` take for space.
abbrev pub is_space : ℕ → Bool
is_space c = (leb 9 c && leb c 13) || c == 32

unfoldable pub trim_left : Text → Text
trim_left [] = []
trim_left (c ∷ s) = let rest = trim_left s in if is_space c then rest else c ∷ s

abbrev pub trim_cons : ℕ → Text → Text
trim_cons c [] = if is_space c then [] else c ∷ []
trim_cons c (d ∷ t) = c ∷ d ∷ t

unfoldable pub trim_right : Text → Text
trim_right [] = []
trim_right (c ∷ s) = trim_cons c (trim_right s)

unfoldable pub trim_space : Text → Text
unfolding trim_left trim_right
trim_space s = trim_right (trim_left s)

-- `Fields(s)`, with the field read so far.
unfoldable pub flush : Text → List Text → List Text
flush [] fs = fs
flush (c ∷ s) fs = (c ∷ s) ∷ fs

unfoldable pub fields_from : Text → Text → List Text
unfolding flush
fields_from word [] = flush word []
fields_from word (c ∷ s) =
    let skip = flush word (fields_from [] s) in
    let more = fields_from (word ++ (c ∷ [])) s in if is_space c then skip else more

unfoldable pub fields : Text → List Text
unfolding fields_from
fields s = fields_from [] s

fields_test : fields (text " 0.0.0.0  ads.example ") ≡ text "0.0.0.0" ∷ text "ads.example" ∷ []
unfolding fields
fields_test = refl

lower_idem : (c : ℕ) → lower (lower c) ≡ lower c
lower_idem c = ground arith

pub to_lower_idem : (s : Text) → to_lower (to_lower s) ≡ to_lower s
unfolding to_lower
to_lower_idem [] = refl
to_lower_idem (c ∷ s) = cc (lower_idem c, to_lower_idem s)

pub split-ne-nil : (s : Text) → split s ≢ []
unfolding split
split-ne-nil [] h = ground arith
split-ne-nil (c ∷ s) h = elim (Bool-cases (c == dot)) [
  | inl e ↦ ground arith
  | inr e ↦ ground arith
]

join-cons_head : (c : ℕ) (ps : List Text) → ps ≢ [] → join (cons_head c ps) ≡ c ∷ join ps
unfolding join
join-cons_head c [] h = absurd (h refl)
join-cons_head c (p ∷ []) h = refl
join-cons_head c (p ∷ q ∷ ps) h = refl

join-nil_cons : (ps : List Text) → ps ≢ [] → join ([] ∷ ps) ≡ dot ∷ join ps
unfolding join
join-nil_cons [] h = absurd (h refl)
join-nil_cons (p ∷ ps) h = refl

-- The parts of a text, joined again, are the text.
pub join-split : (s : Text) → join (split s) ≡ s
unfolding split join
join-split [] = refl
join-split (c ∷ s) = elim (Bool-cases (c == dot)) [
  | inl e ↦ rw e (join-nil_cons (split s) (split-ne-nil s) ∙ cc ((==_iff c dot).0 e, join-split s))
  | inr e ↦ rw e (join-cons_head c (split s) (split-ne-nil s) ∙ ap (◌∷◌ c) (join-split s))
]
