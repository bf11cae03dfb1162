-- ===== src/Samples.antt =====
-- A concrete instance of what the crates take from elsewhere, for the runs of the other modules:
-- JSON documents as trees, amounts as numbers, and a parser that knows the texts it is given.
use cap_protocol.Prelude.{
  ℕ, ℤ, pos, negsuc, show_int, String, Bool, Option, none, some, List, [], ◌∷◌, ◌+◌, ltb, lookup,
}
use cap_protocol.Core.{Foreign}

mutual
  pub data Doc : Type 0 where
    null : Doc
    bool : Bool → Doc
    number : ℕ → Doc
    negative : ℕ → Doc
    str : String → Doc
    arr : Docs → Doc
    obj : Fields → Doc

  pub data Docs : Type 0 where
    nil : Docs
    cons : Doc → Docs → Docs

  pub data Fields : Type 0 where
    done : Fields
    field : String → Doc → Fields → Fields

abbrev pub docs : Docs → List Doc
docs nil = []
docs (cons d ds) = d ∷ docs ds

abbrev pub fields : Fields → List (String × Doc)
fields done = []
fields (field k d fs) = (k, d) ∷ fields fs

abbrev pub to_docs : List Doc → Docs
to_docs [] = nil
to_docs (d ∷ ds) = cons d (to_docs ds)

abbrev pub to_fields : List (String × Doc) → Fields
to_fields [] = done
to_fields ((k, d) ∷ fs) = field k d (to_fields fs)

unfoldable pub get_field : String → Doc → Option Doc
unfolding lookup
get_field k (obj fs) = lookup k (fields fs)
get_field k _ = none

abbrev pub str_of : Doc → Option String
str_of (str s) = some s
str_of _ = none

abbrev pub bool_of : Doc → Option Bool
bool_of (bool b) = some b
bool_of _ = none

abbrev pub number_of : Doc → Option ℕ
number_of (number n) = some n
number_of _ = none

abbrev pub int_of : Doc → Option ℤ
int_of (number n) = some (pos n)
int_of (negative n) = some (negsuc n)
int_of _ = none

abbrev pub of_int : ℤ → Doc
of_int (pos n) = number n
of_int (negsuc n) = negative n

abbrev pub shown_of : Doc → Option String
unfolding show_int
shown_of (number n) = some (show_int (pos n))
shown_of (negative n) = some (show_int (negsuc n))
shown_of _ = none

abbrev pub docs_of : Doc → Option (List Doc)
docs_of (arr ds) = some (docs ds)
docs_of _ = none

abbrev pub fields_of : Doc → Option (List (String × Doc))
fields_of (obj fs) = some (fields fs)
fields_of _ = none

-- The texts that can be parsed, with their documents.
abbrev pub world_of : List (String × Doc) → Foreign
world_of known = record {
  Value = Doc;
  null = null;
  string = str;
  object = λ fs. obj (to_fields fs);
  array = λ ds. arr (to_docs ds);
  get = get_field;
  as_str = str_of;
  as_bool = bool_of;
  as_array = docs_of;
  as_object = fields_of;
  from_str = λ s. lookup s known;
  to_string = λ d. "?";
  F64 = ℕ;
  integer = of_int;
  boolean = bool;
  as_i64 = int_of;
  as_number = shown_of;
  as_u64 = number_of;
  as_f64 = number_of;
  zero = 0;
  add = λ a b. a + b;
  gt = λ a b. ltb b a;
}

abbrev pub plain : Foreign
plain = world_of []
