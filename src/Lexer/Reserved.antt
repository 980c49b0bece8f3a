-- ===== src/Lexer/Reserved.antt =====
-- The token types of rdxsrc/Compiler/Lex.rdx, and the tables of reserved words of
-- src/rdxcompilerservices/rdxc_lexstate.cpp.
pub mod Search
pub mod Shadowed
use Prim.Native.String.{String}
use rdx.Base.{
  ℕ, zero, suc, ◌-◌, Bool, true, false, ◌&&◌, List, [], ◌∷◌, ◌==◌, leb, if◌then◌else◌, Bytes, codes,
  length, get_or,
}

pub data TokenType : Type 0 where
  unknown name string punctuation number eof : TokenType
  rw_abstract rw_anonymous rw_as rw_branching rw_break : TokenType
  rw_by_val rw_case rw_catch rw_class rw_coerce : TokenType
  rw_const rw_continue rw_default rw_delegate rw_do : TokenType
  rw_else rw_enum rw_explicit rw_extends rw_false : TokenType
  rw_final rw_finally rw_for rw_for_each rw_function : TokenType
  rw_if rw_implements rw_in rw_intercept rw_interface : TokenType
  rw_is rw_local rw_localized rw_must_be_const rw_must_be_ref : TokenType
  rw_native rw_namespace rw_new rw_not_null rw_null : TokenType
  rw_private rw_promote rw_property rw_protected rw_public : TokenType
  rw_resource rw_return rw_static rw_struct rw_switch : TokenType
  rw_this rw_throw rw_try rw_true rw_tuple : TokenType
  rw_type_def rw_type_of rw_using rw_virtual rw_void : TokenType
  rw_while : TokenType

-- `RDXCReservedWord`; the terminators at the ends of the arrays are the ends of the lists
pub record ReservedWord : Type 0 where
  pub text : Bytes
  pub token_type : TokenType

abbrev word : String → TokenType → ReservedWord
word t k = record { text = codes t; token_type = k }

abbrev pub reserved_words_a : List ReservedWord
reserved_words_a =
    word "abstract" rw_abstract ∷ word "anonymous" rw_anonymous ∷ word "as" rw_as ∷ []

abbrev pub reserved_words_b : List ReservedWord
reserved_words_b =
    word "branching" rw_branching ∷ word "break" rw_break ∷ word "byval" rw_by_val ∷ []

abbrev pub reserved_words_c : List ReservedWord
reserved_words_c =
    word "case" rw_case
    ∷ word "catch" rw_catch
    ∷ word "class" rw_class
    ∷ word "coerce" rw_coerce
    ∷ word "const" rw_const
    ∷ word "continue" rw_continue
    ∷ []

abbrev pub reserved_words_d : List ReservedWord
reserved_words_d = word "default" rw_default ∷ word "delegate" rw_delegate ∷ word "do" rw_do ∷ []

abbrev pub reserved_words_e : List ReservedWord
reserved_words_e =
    word "else" rw_else
    ∷ word "enum" rw_enum
    ∷ word "explicit" rw_explicit
    ∷ word "extends" rw_extends
    ∷ []

abbrev pub reserved_words_f : List ReservedWord
reserved_words_f =
    word "false" rw_false
    ∷ word "final" rw_final
    ∷ word "finally" rw_finally
    ∷ word "for" rw_for
    ∷ word "foreach" rw_for_each
    ∷ word "function" rw_function
    ∷ []

abbrev pub reserved_words_i : List ReservedWord
reserved_words_i =
    word "if" rw_if
    ∷ word "implements" rw_implements
    ∷ word "in" rw_in
    ∷ word "intercept" rw_intercept
    ∷ word "interface" rw_interface
    ∷ word "is" rw_is
    ∷ []

abbrev pub reserved_words_l : List ReservedWord
reserved_words_l = word "local" rw_local ∷ word "localized" rw_localized ∷ []

abbrev pub reserved_words_m : List ReservedWord
reserved_words_m = word "mustbeconst" rw_must_be_const ∷ word "mustberef" rw_must_be_ref ∷ []

abbrev pub reserved_words_n : List ReservedWord
reserved_words_n =
    word "native" rw_native
    ∷ word "namespace" rw_namespace
    ∷ word "new" rw_new
    ∷ word "notnull" rw_not_null
    ∷ word "null" rw_null
    ∷ []

abbrev pub reserved_words_p : List ReservedWord
reserved_words_p =
    word "private" rw_private
    ∷ word "promote" rw_promote
    ∷ word "property" rw_property
    ∷ word "protected" rw_protected
    ∷ word "public" rw_public
    ∷ []

abbrev pub reserved_words_r : List ReservedWord
reserved_words_r = word "resource" rw_resource ∷ word "return" rw_return ∷ []

abbrev pub reserved_words_s : List ReservedWord
reserved_words_s = word "static" rw_static ∷ word "struct" rw_struct ∷ word "switch" rw_switch ∷ []

abbrev pub reserved_words_t : List ReservedWord
reserved_words_t =
    word "this" rw_this
    ∷ word "throw" rw_throw
    ∷ word "try" rw_try
    ∷ word "true" rw_true
    ∷ word "tuple" rw_tuple
    ∷ word "typedef" rw_type_def
    ∷ word "typedef" rw_type_of
    ∷ []

abbrev pub reserved_words_u : List ReservedWord
reserved_words_u = word "using" rw_using ∷ []

abbrev pub reserved_words_v : List ReservedWord
reserved_words_v = word "virtual" rw_virtual ∷ word "void" rw_void ∷ []

abbrev pub reserved_words_w : List ReservedWord
reserved_words_w = word "while" rw_while ∷ []

-- `RESERVED_WORDS`, by the first letter; NULL is the empty list
abbrev pub reserved_words : List (List ReservedWord)
reserved_words =
    reserved_words_a ∷ reserved_words_b ∷ reserved_words_c ∷ reserved_words_d ∷ reserved_words_e
    ∷ reserved_words_f ∷ [] ∷ [] ∷ reserved_words_i ∷ [] ∷ [] ∷ reserved_words_l ∷ reserved_words_m
    ∷ reserved_words_n ∷ [] ∷ reserved_words_p ∷ [] ∷ reserved_words_r ∷ reserved_words_s
    ∷ reserved_words_t ∷ reserved_words_u ∷ reserved_words_v ∷ reserved_words_w ∷ [] ∷ [] ∷ [] ∷ []

-- `memcmp` on equal lengths
unfoldable pub same_text : Bytes → Bytes → Bool
same_text [] [] = true
same_text (x ∷ xs) (y ∷ ys) = x == y && same_text xs ys
same_text _ _ = false

-- `Match`
unfoldable pub matches : Bytes → ReservedWord → Bool
unfolding same_text
matches chars w = length chars == length w.text && same_text chars w.text

-- `while(!rw->IsTerminator()) { if(rw->Match(chars, len)) …; rw++; }`
unfoldable pub search_row : Bytes → List ReservedWord → TokenType → TokenType
search_row chars [] found = found
search_row chars (w ∷ ws) found =
    if matches chars w then w.token_type else search_row chars ws found

-- The part of `Export` that turns a name into a reserved word. A name has a first character.
unfoldable pub classify_name : Bytes → TokenType
unfolding search_row matches
classify_name chars =
    let c = get_or chars 0 0 in
    if leb b'a' c && leb c b'z'
    then search_row chars (get_or reserved_words (c - b'a') []) name
    else name
