-- ===== src/Config/Origins.antt =====
-- The allowlist: `AllowsOrigin` and `splitList` of platform/config/config.go.
use mathlib.Core.List.{Memᴰ}
use billiards_online.Base.{
  ◌≡◌, ◌↔◌, refl, true, List, [], ◌∷◌, Text, text_eq, text_eq_iff, Bool-cases, inl, inr,
}
use billiards_online.Config.{Config, allows, allows_origin}

allows-Mem : (os : List Text) (origin : Text) → allows os origin ≡ true → Memᴰ origin os
unfolding allows
allows-Mem [] origin e = absurd (cc e)
allows-Mem (o ∷ os) origin e = elim (Bool-cases (text_eq origin o)) [
  | inl same ↦ Memᴰ.head ((text_eq_iff origin o).0 same)
  | inr other ↦ Memᴰ.tail (allows-Mem os origin (rw other at e))
]

Mem-allows : (os : List Text) (origin : Text) → Memᴰ origin os → allows os origin ≡ true
unfolding allows
Mem-allows [] origin m = elim m [ ]
Mem-allows (o ∷ os) origin (Memᴰ.head e) = rw ((text_eq_iff origin o).1 e) refl
Mem-allows (o ∷ os) origin (Memᴰ.tail m) = elim (Bool-cases (text_eq origin o)) [
  | inl same ↦ rw same refl
  | inr other ↦ rw other (Mem-allows os origin m)
]

-- An origin is allowed exactly if it stands in the allowlist, character for character.
pub allows_origin_iff :
    (c : Config) (origin : Text)
    → (allows_origin c origin ≡ true) ↔ Memᴰ origin c.http.allowed_origins
unfolding allows_origin
allows_origin_iff c origin = (allows-Mem _ origin, Mem-allows _ origin)
