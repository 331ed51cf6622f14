-- ===== src/DList.antt =====
-- The calls that the repository makes of src/common/ds/dlist.h, a copy of the Linux kernel's intrusive
-- list. An entry is the address of its `dl_ent_t`, a number; a head is whatever the list keeps.
-- The laws are what that header documents of an entry that is in one list at most.
pub mod Plain
use c_liber.Prelude.{
  ℕ, Bool, true, false, ◌≡◌, Option, none, some, List, [], ◌∷◌, ◌++◌, ◌==◌, if◌then◌else◌,
}

abbrev pub is_nil : List ℕ → Bool
is_nil [] = true
is_nil (x ∷ xs) = false

abbrev pub first? : List ℕ → Option ℕ
first? [] = none
first? (x ∷ xs) = some x

abbrev pub rest : List ℕ → List ℕ
rest [] = []
rest (x ∷ xs) = xs

-- Without the first occurrence of an entry.
abbrev pub without : ℕ → List ℕ → List ℕ
without e [] = []
without e (x ∷ xs) = if x == e then xs else x ∷ without e xs

pub record DList : Type 1 where
  pub Head : Type 0
  -- the entries from `head->next` on
  pub entries : Head → List ℕ
  -- INIT_LIST_HEAD
  pub init : Head
  pub list_empty : Head → Bool
  pub list_push : ℕ → Head → Head
  pub list_shift : Head → Option ℕ × Head
  -- `list_del` of an entry that may stand in this list
  pub list_del : ℕ → Head → Head
  pub entries-init : entries init ≡ []
  pub list_empty_lem : (h : Head) → list_empty h ≡ is_nil (entries h)
  pub entries-push : (e : ℕ) (h : Head) → entries (list_push e h) ≡ entries h ++ e ∷ []
  pub shift-entry : (h : Head) → (list_shift h).0 ≡ first? (entries h)
  pub entries-shift : (h : Head) → entries (list_shift h).1 ≡ rest (entries h)
  pub entries-del : (e : ℕ) (h : Head) → entries (list_del e h) ≡ without e (entries h)
