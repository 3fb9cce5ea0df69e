-- ===== src/Json/Codec.antt =====
-- A byte text of JSON values from which they are read back, for examples: pairs of a code and an
-- argument, which build the value on stacks of its parts.
use airing_cal.Common.{
  ℕ, zero, suc, ◌==◌, ◌≡◌, refl, ap, ◌∙◌, Bool, true, false, Option, none, some, List, [], ◌∷◌,
  Text, Bytes,
}
use airing_cal.Json.{
  Json, null, boolean, natural, other_number, string, array, object, Items, no_items, item, Fields,
  no_fields, field,
}

abbrev pub code_of : Bool → ℕ
code_of true = 1
code_of false = 0

unfoldable pub encode_text : Text → Bytes → Bytes
encode_text [] rest = 7 ∷ 0 ∷ rest
encode_text (c ∷ cs) rest = encode_text cs (8 ∷ c ∷ rest)

unfoldable mutual
  pub encode_onto : Json → Bytes → Bytes
  encode_onto null rest = 0 ∷ 0 ∷ rest
  encode_onto (boolean b) rest = 1 ∷ code_of b ∷ rest
  encode_onto (natural n) rest = 2 ∷ n ∷ rest
  encode_onto (other_number n) rest = encode_text n (3 ∷ 0 ∷ rest)
  encode_onto (string s) rest = encode_text s (4 ∷ 0 ∷ rest)
  encode_onto (array values) rest = encode_items values (5 ∷ 0 ∷ rest)
  encode_onto (object fields) rest = encode_fields fields (6 ∷ 0 ∷ rest)

  pub encode_items : Items → Bytes → Bytes
  encode_items no_items rest = 9 ∷ 0 ∷ rest
  encode_items (item value values) rest = encode_items values (encode_onto value (10 ∷ 0 ∷ rest))

  pub encode_fields : Fields → Bytes → Bytes
  encode_fields no_fields rest = 11 ∷ 0 ∷ rest
  encode_fields (field key value fields) rest =
      encode_fields fields (encode_onto value (encode_text key (12 ∷ 0 ∷ rest)))

abbrev pub Stacks : Type 0
Stacks = List Json × List Items × List Fields × List Text

pub data Op : Type 0 where
  make_null make_boolean make_natural make_number make_string make_array make_object : Op
  start_text add_char start_items add_item start_fields add_field : Op

abbrev pub ops : List Op
ops =
    make_null ∷ make_boolean ∷ make_natural ∷ make_number ∷ make_string ∷ make_array ∷ make_object
    ∷ start_text ∷ add_char ∷ start_items ∷ add_item ∷ start_fields ∷ add_field ∷ []

unfoldable pub apply : Op → ℕ → Stacks → Stacks
apply make_null _ (vs, is, fs, ts) = (null ∷ vs, is, fs, ts)
apply make_boolean b (vs, is, fs, ts) = (boolean (b == 1) ∷ vs, is, fs, ts)
apply make_natural n (vs, is, fs, ts) = (natural n ∷ vs, is, fs, ts)
apply make_number _ (vs, is, fs, t ∷ ts) = (other_number t ∷ vs, is, fs, ts)
apply make_string _ (vs, is, fs, t ∷ ts) = (string t ∷ vs, is, fs, ts)
apply make_array _ (vs, i ∷ is, fs, ts) = (array i ∷ vs, is, fs, ts)
apply make_object _ (vs, is, f ∷ fs, ts) = (object f ∷ vs, is, fs, ts)
apply start_text _ (vs, is, fs, ts) = (vs, is, fs, [] ∷ ts)
apply add_char c (vs, is, fs, t ∷ ts) = (vs, is, fs, (c ∷ t) ∷ ts)
apply start_items _ (vs, is, fs, ts) = (vs, no_items ∷ is, fs, ts)
apply add_item _ (v ∷ vs, i ∷ is, fs, ts) = (vs, item v i ∷ is, fs, ts)
apply start_fields _ (vs, is, fs, ts) = (vs, is, no_fields ∷ fs, ts)
apply add_field _ (v ∷ vs, is, f ∷ fs, t ∷ ts) = (vs, is, field t v f ∷ fs, ts)
apply _ _ stacks = stacks

unfoldable pub nth : ℕ → List Op → Op
nth n [] = make_null
nth zero (op ∷ _) = op
nth (suc n) (_ ∷ ops) = nth n ops

unfoldable pub run : Bytes → Stacks → Stacks
run (code ∷ argument ∷ rest) stacks = run rest (apply (nth code ops) argument stacks)
run (_ ∷ []) stacks = stacks
run [] stacks = stacks

run-encode_text :
    (text : Text) (rest : Bytes) (vs : List Json) (is : List Items) (fs : List Fields)
    (ts : List Text)
    → run (encode_text text rest) (vs, is, fs, ts) ≡ run rest (vs, is, fs, text ∷ ts)
unfolding run apply nth encode_text
run-encode_text [] rest vs is fs ts = refl
run-encode_text (c ∷ cs) rest vs is fs ts = run-encode_text cs (8 ∷ c ∷ rest) vs is fs ts

code_lem : (b : Bool) → (code_of b == 1) ≡ b
code_lem true = refl
code_lem false = refl

mutual
  unfolding run apply nth encode_onto

  run-encode_onto :
      (value : Json) (rest : Bytes) (vs : List Json) (is : List Items) (fs : List Fields)
      (ts : List Text)
      → run (encode_onto value rest) (vs, is, fs, ts) ≡ run rest (value ∷ vs, is, fs, ts)
  run-encode_onto null rest vs is fs ts = refl
  run-encode_onto (boolean b) rest vs is fs ts =
      ap (λ c. run rest (boolean c ∷ vs, is, fs, ts)) (code_lem b)
  run-encode_onto (natural n) rest vs is fs ts = refl
  run-encode_onto (other_number n) rest vs is fs ts = run-encode_text n (3 ∷ 0 ∷ rest) vs is fs ts
  run-encode_onto (string s) rest vs is fs ts = run-encode_text s (4 ∷ 0 ∷ rest) vs is fs ts
  run-encode_onto (array values) rest vs is fs ts =
      run-encode_items values (5 ∷ 0 ∷ rest) vs is fs ts
  run-encode_onto (object fields) rest vs is fs ts =
      run-encode_fields fields (6 ∷ 0 ∷ rest) vs is fs ts

  run-encode_items :
      (values : Items) (rest : Bytes) (vs : List Json) (is : List Items) (fs : List Fields)
      (ts : List Text)
      → run (encode_items values rest) (vs, is, fs, ts) ≡ run rest (vs, values ∷ is, fs, ts)
  run-encode_items no_items rest vs is fs ts = refl
  run-encode_items (item value values) rest vs is fs ts =
      run-encode_items values (encode_onto value (10 ∷ 0 ∷ rest)) vs is fs ts
      ∙ run-encode_onto value (10 ∷ 0 ∷ rest) vs (values ∷ is) fs ts

  run-encode_fields :
      (fields : Fields) (rest : Bytes) (vs : List Json) (is : List Items) (fs : List Fields)
      (ts : List Text)
      → run (encode_fields fields rest) (vs, is, fs, ts) ≡ run rest (vs, is, fields ∷ fs, ts)
  run-encode_fields no_fields rest vs is fs ts = refl
  run-encode_fields (field key value fields) rest vs is fs ts =
      run-encode_fields fields (encode_onto value (encode_text key (12 ∷ 0 ∷ rest))) vs is fs ts
      ∙ run-encode_onto value (encode_text key (12 ∷ 0 ∷ rest)) vs is (fields ∷ fs) ts
      ∙ run-encode_text key (12 ∷ 0 ∷ rest) (value ∷ vs) is (fields ∷ fs) ts

abbrev pub top : Stacks → Option Json
top ([], _, _, _) = none
top (value ∷ _, _, _, _) = some value

unfoldable pub encode : Json → Bytes
encode value = encode_onto value []

unfoldable pub decode : Bytes → Option Json
decode bytes = top (run bytes ([], [], [], []))

pub decode-encode : (value : Json) → decode (encode value) ≡ some value
unfolding encode decode run
decode-encode value = ap top (run-encode_onto value [] [] [] [] [])
