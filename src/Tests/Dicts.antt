-- ===== src/Tests/Dicts.antt =====
-- dict.c: the dictionary on a few entries.
use miniredis.Common.{ℕ, Bytes, none, some, [], ◌∷◌, ◌≡◌, bytes_eq}
use miniredis.Dict.{Dict, dict_create, dict_set, dict_delete}
use miniredis.Dict.Laws.Valid.{IsValid, view, dict_create-IsValid}
use miniredis.Dict.Laws.Ops.{Writes, dict_set-Writes, dict_delete-Writes}

abbrev apple : Bytes
apple = b'a' ∷ []

abbrev pear : Bytes
pear = b'p' ∷ []

abbrev none_yet : Dict ℕ
none_yet = dict_create []

none_yet-IsValid : IsValid none_yet
none_yet-IsValid = (dict_create-IsValid []).0

abbrev one_apple : Dict ℕ
one_apple = (dict_set none_yet apple 1).1

one_apple-IsValid : IsValid one_apple
one_apple-IsValid = (dict_set-Writes none_yet apple 1 none_yet-IsValid).valid

one_apple-view : view one_apple apple ≡ some 1
unfolding bytes_eq
one_apple-view = (dict_set-Writes none_yet apple 1 none_yet-IsValid).views apple

dict_set-Writes_example : Writes one_apple pear (some 2) (dict_set one_apple pear 2)
dict_set-Writes_example = dict_set-Writes one_apple pear 2 one_apple-IsValid

dict_delete-Writes_example : Writes one_apple apple none (dict_delete one_apple apple)
dict_delete-Writes_example = dict_delete-Writes one_apple apple one_apple-IsValid
