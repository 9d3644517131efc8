-- ===== src/Record/BlockBuilder/Batch.antt =====
-- Lists of entries: what a permutation of them keeps, and what one more entry adds.
use libnx.Common.{
  ◌+◌, ◌≡◌, refl, ap, subst, ◌∙◌, Bool, false, ◌||◌, List, [], ◌∷◌, ◌++◌, map, arith, All,
}
use mathlib.Core.List.{Permᴰ}
use libnx.Record.Types.{BlockEntryBuffer}
use libnx.Record.BlockBuilder.{entry_size, entries_size, is_keyframe}

module _ {ℓ} {A : Type ℓ} where
  pub All-perm {κ} : (P : A → Type κ) {xs ys : List A} → Permᴰ xs ys → All P xs → All P ys
  All-perm P Permᴰ.nil h = h
  All-perm P (Permᴰ.cons e p) h = (subst P e h.0, All-perm P p h.1)
  All-perm P (Permᴰ.swap e f) h = (subst P f h.1.0, (subst P e h.0, h.1.1))
  All-perm P (Permᴰ.trans p q) h = All-perm P q (All-perm P p h)

  pub map-perm {κ} :
      {B : Type κ} (f : A → B) {xs ys : List A} → Permᴰ xs ys → Permᴰ (map f xs) (map f ys)
  map-perm f Permᴰ.nil = Permᴰ.nil
  map-perm f (Permᴰ.cons e p) = Permᴰ.cons (ap f e) (map-perm f p)
  map-perm f (Permᴰ.swap e g) = Permᴰ.swap (ap f e) (ap f g)
  map-perm f (Permᴰ.trans p q) = Permᴰ.trans (map-perm f p) (map-perm f q)

unfoldable pub any_keyframe : List BlockEntryBuffer → Bool
any_keyframe [] = false
any_keyframe (e ∷ es) = is_keyframe e.entry || any_keyframe es

pub entries_size-perm :
    {xs ys : List BlockEntryBuffer} → Permᴰ xs ys → entries_size xs ≡ entries_size ys
unfolding entries_size
entries_size-perm Permᴰ.nil = refl
entries_size-perm (Permᴰ.cons e p) = omega (arith, ap entry_size e, entries_size-perm p)
entries_size-perm (Permᴰ.swap e f) = omega (arith, ap entry_size e, ap entry_size f)
entries_size-perm (Permᴰ.trans p q) = entries_size-perm p ∙ entries_size-perm q

pub entries_size-append :
    (es : List BlockEntryBuffer) (e : BlockEntryBuffer)
    → entries_size (es ++ (e ∷ [])) ≡ entries_size es + entry_size e
unfolding entries_size
entries_size-append [] e = omega arith
entries_size-append (x ∷ es) e = omega (arith, entries_size-append es e)

pub any_keyframe-append :
    (es : List BlockEntryBuffer) (e : BlockEntryBuffer)
    → any_keyframe (es ++ (e ∷ [])) ≡ (is_keyframe e.entry || any_keyframe es)
unfolding any_keyframe
any_keyframe-append [] e = ground arith
any_keyframe-append (x ∷ es) e = ground (arith, any_keyframe-append es e)
