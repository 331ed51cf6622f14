-- ===== src/DList/Plain.antt =====
-- Plain lists meet the laws of DList: the sequence of the entries itself.
use c_liber.Prelude.{refl, List, ℕ, [], ◌∷◌, ◌++◌}
use c_liber.DList.{DList, is_nil, first?, rest, without}

abbrev pub plain : DList
plain = record {
  Head = List ℕ;
  entries = λ h. h;
  init = [];
  list_empty = is_nil;
  list_push = λ e h. h ++ e ∷ [];
  list_shift = λ h. (first? h, rest h);
  list_del = without;
  entries-init = refl;
  list_empty_lem = λ h. refl;
  entries-push = λ e h. refl;
  shift-entry = λ h. refl;
  entries-shift = λ h. refl;
  entries-del = λ e h. refl;
}
