-- ===== src/Domain/Json.antt =====
-- JSON values as Python's `json` reads them, with texts as code points. A number is kept as the
-- text that it is written with.
use deep_agent_test.Prelude.{
  ℕ, Bool, true, false, Option, none, some, List, [], ◌∷◌, ◌&&◌, ◌==◌, if◌then◌else◌,
}

mutual
  pub data Json : Type 0 where
    null : Json
    bool : Bool → Json
    num str : List ℕ → Json
    arr : Jsons → Json
    obj : Members → Json

  pub data Jsons : Type 0 where
    no_items : Jsons
    item : Json → Jsons → Jsons

  pub data Members : Type 0 where
    no_members : Members
    member : List ℕ → Json → Members → Members

abbrev pub codes_eq : List ℕ → List ℕ → Bool
codes_eq [] [] = true
codes_eq [] (y ∷ ys) = false
codes_eq (x ∷ xs) [] = false
codes_eq (x ∷ xs) (y ∷ ys) = (x == y) && codes_eq xs ys

-- `data[key]` on a `dict`, in which the last of equal keys stays; `none` is the KeyError.
unfoldable pub get_member : List ℕ → Members → Option Json
get_member key no_members = none
get_member key (member k v rest) = elim (get_member key rest) [
  | some w ↦ some w
  | none ↦ if codes_eq k key then some v else none
]
