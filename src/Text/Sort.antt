-- ===== src/Text/Sort.antt =====
-- sort.Strings of Go's standard library: the strings in ascending byte order. The result depends
-- only on which strings there are, and how often.
use mathlib.Core.List.{Perm, Permᴰ}
use mathlib.Core.List.Perm
use mathlib.Core.Logic.{∥∥₁_elim}
use mathlib.Core.HLevel.{hedberg}
use native.Mathlib.Decide.{ℕ_discrete}
use go_pub_sub.Prelude.{
  ℕ, ◌≡◌, refl, ap₂, ◌∙◌, inl, inr, Bool, true, false, List, [], ◌∷◌, arith, Bool-cases, ltb,
  if◌then◌else◌,
}

-- a <= b, byte by byte
bytes_leb : List ℕ → List ℕ → Bool
bytes_leb [] t = true
bytes_leb (c ∷ s) [] = false
bytes_leb (c ∷ s) (d ∷ t) = if ltb c d then true else if ltb d c then false else bytes_leb s t

leb_total : (s t : List ℕ) → bytes_leb s t ≡ false → bytes_leb t s ≡ true
unfolding bytes_leb
leb_total [] t h = cc
leb_total (c ∷ s) [] h = refl
leb_total (c ∷ s) (d ∷ t) h = ground (arith, leb_total s t)

leb_antisymm : (s t : List ℕ) → bytes_leb s t ≡ true → bytes_leb t s ≡ true → s ≡ t
unfolding bytes_leb
leb_antisymm [] [] h k = refl
leb_antisymm [] (d ∷ t) h k = cc
leb_antisymm (c ∷ s) [] h k = cc
leb_antisymm (c ∷ s) (d ∷ t) h k = ground (arith, leb_antisymm s t)

leb_trans : (s t u : List ℕ) → bytes_leb s t ≡ true → bytes_leb t u ≡ true → bytes_leb s u ≡ true
unfolding bytes_leb
leb_trans [] t u h k = refl
leb_trans (c ∷ s) [] u h k = cc
leb_trans (c ∷ s) (d ∷ t) [] h k = cc
leb_trans (c ∷ s) (d ∷ t) (e ∷ u) h k = ground (arith, leb_trans s t u)

insert : List ℕ → List (List ℕ) → List (List ℕ)
insert s [] = s ∷ []
insert s (t ∷ ts) = let rest = insert s ts in if bytes_leb s t then s ∷ t ∷ ts else t ∷ rest

unfoldable pub sort_strings : List (List ℕ) → List (List ℕ)
unfolding insert bytes_leb
sort_strings [] = []
sort_strings (s ∷ ss) = insert s (sort_strings ss)

insert-perm : (s : List ℕ) (ss : List (List ℕ)) → Perm (insert s ss) (s ∷ ss)
unfolding insert
insert-perm s [] = Perm.refl (s ∷ [])
insert-perm s (t ∷ ts) = elim (Bool-cases (bytes_leb s t)) [
  | inl le ↦ rw (le, insert) (Perm.refl (s ∷ t ∷ ts))
  | inr gt ↦ rw (gt, insert) (Perm.trans (Perm.cons t (insert-perm s ts)) (Perm.swap s t ts))
]

pub sort_strings-perm : (ss : List (List ℕ)) → Perm (sort_strings ss) ss
unfolding sort_strings
sort_strings-perm [] = Perm.refl []
sort_strings-perm (s ∷ ss) =
    Perm.trans (insert-perm s (sort_strings ss)) (Perm.cons s (sort_strings-perm ss))

insert_comm : (s t : List ℕ) (us : List (List ℕ)) → insert s (insert t us) ≡ insert t (insert s us)
unfolding insert
insert_comm s t [] = ground (arith, leb_total s t, leb_antisymm s t)
insert_comm s t (u ∷ us) = ground (
  arith,
  insert_comm s t us,
  leb_total s t,
  leb_total t s,
  leb_total s u,
  leb_total t u,
  leb_antisymm s t,
  leb_trans s t u,
  leb_trans t s u,
)

strings_discrete : Discrete (List (List ℕ))
strings_discrete = hlevel ℕ_discrete

strings_set : IsSet (List (List ℕ))
strings_set = hedberg strings_discrete

sort_of_Permᴰ : {ss ts : List (List ℕ)} → Permᴰ ss ts → sort_strings ss ≡ sort_strings ts
unfolding sort_strings
sort_of_Permᴰ Permᴰ.nil = refl
sort_of_Permᴰ (Permᴰ.cons e p) = ap₂ insert e (sort_of_Permᴰ p)
sort_of_Permᴰ (Permᴰ.swap {a} {b} {l} e f) =
    insert_comm a b (sort_strings l) ∙ ap₂ (λ x y. insert x (insert y (sort_strings l))) f e
sort_of_Permᴰ (Permᴰ.trans p q) = sort_of_Permᴰ p ∙ sort_of_Permᴰ q

-- A rearrangement of the strings sorts to the same list.
pub sort_strings_of_perm : {ss ts : List (List ℕ)} → Perm ss ts → sort_strings ss ≡ sort_strings ts
sort_strings_of_perm p = ∥∥₁_elim p (strings_set _ _) sort_of_Permᴰ
