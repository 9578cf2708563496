-- ===== src/Prelude/Names.antt =====
-- A closed vocabulary: the value that a text names, and the texts that name one.
use Prim.Native.String.{String}
use mathlib.Core.Path.{◌≡◌}
use mathlib.Core.Option.{Option, none, some}
use mathlib.Core.List.{List, [], ◌∷◌}
use native.Mathlib.Omega.{arith}
use text.Mathlib.TextEquality.{eq_iff}
use tiktok_b2b_bot_mirror.Prelude.Tests.{◌==◌, string_eq, if◌then◌else◌}

module _ {A : Type 0} (name : A → String) where
  unfoldable pub find_name : String → List A → Option A
  find_name text [] = none
  find_name text (a ∷ rest) = if text == name a then some a else find_name text rest

  -- What is found has the name that was looked for.
  pub name-find_name :
      (text : String) (all : List A) {a : A} → find_name text all ≡ some a → text ≡ name a
  unfolding find_name
  name-find_name text [] h = cc
  name-find_name text (x ∷ rest) {a} h =
      ground (arith, eq_iff text (name x), name-find_name text rest {a = a})
