-- ===== src/Lexer/Token.antt =====
-- Lexer.h and Lexer.cpp: the kinds of tokens, tokens, and the table of keywords.
use bcpl.Prelude.{ℕ, [], ◌∷◌, Text, codes}
use bcpl.Prelude.Dict.{Dict}

pub data TokenType : Type 0 where
  eof error let_ manifest static f_static table f_table len global function : TokenType
  routine and vec f_vec if_ unless test while until repeat for for_each f_foreach : TokenType
  in_ switchon case default goto return finish loop endcase resultis valof f_valof : TokenType
  be to by into do_ or break get f_let then_ else_ string brk freevec identifier : TokenType
  number_literal string_literal char_literal boolean_literal assign plus minus : TokenType
  multiply divide remainder equal not_equal less less_equal greater greater_equal : TokenType
  logical_and bitwise_and logical_or bitwise_or bitwise_not logical_not : TokenType
  equivalence not_equivalence left_shift right_shift conditional address_of : TokenType
  indirection vec_indirection char_indirection char_vector_indirection bitfield : TokenType
  float_plus float_minus float_multiply float_divide float_vec_indirection : TokenType
  float_equal float_not_equal float_less float_less_equal float_greater : TokenType
  float_greater_equal float fsqrt entier trunc list manifest_list type_int : TokenType
  type_float type_string type_list type_vec type_pointer type_const type_any : TokenType
  type_table type_of hd tl rest freelist lparen rparen lbrace rbrace comma : TokenType
  semicolon colon : TokenType

pub record Token : Type 0 where
  pub type : TokenType
  pub value : Text
  pub line : ℕ
  pub column : ℕ

abbrev pub keywords : Dict TokenType
keywords =
    (codes "LET", TokenType.let_)
    ∷ (codes "MANIFEST", TokenType.manifest)
    ∷ (codes "STATIC", TokenType.static)
    ∷ (codes "FSTATIC", TokenType.f_static)
    ∷ (codes "GLOBAL", TokenType.global)
    ∷ (codes "FUNCTION", TokenType.function)
    ∷ (codes "ROUTINE", TokenType.routine)
    ∷ (codes "AND", TokenType.logical_and)
    ∷ (codes "NOT", TokenType.logical_not)
    ∷ (codes "VEC", TokenType.vec)
    ∷ (codes "IF", TokenType.if_)
    ∷ (codes "FVEC", TokenType.f_vec)
    ∷ (codes "UNLESS", TokenType.unless)
    ∷ (codes "TEST", TokenType.test)
    ∷ (codes "WHILE", TokenType.while)
    ∷ (codes "UNTIL", TokenType.until)
    ∷ (codes "REPEAT", TokenType.repeat)
    ∷ (codes "FOR", TokenType.for)
    ∷ (codes "FOREACH", TokenType.for_each)
    ∷ (codes "IN", TokenType.in_)
    ∷ (codes "SWITCHON", TokenType.switchon)
    ∷ (codes "CASE", TokenType.case)
    ∷ (codes "DEFAULT", TokenType.default)
    ∷ (codes "GOTO", TokenType.goto)
    ∷ (codes "RETURN", TokenType.return)
    ∷ (codes "FINISH", TokenType.finish)
    ∷ (codes "FLOAT", TokenType.float)
    ∷ (codes "FLET", TokenType.f_let)
    ∷ (codes "FSQRT", TokenType.fsqrt)
    ∷ (codes "ENTIER", TokenType.entier)
    ∷ (codes "TRUNC", TokenType.trunc)
    ∷ (codes "LOOP", TokenType.loop)
    ∷ (codes "ENDCASE", TokenType.endcase)
    ∷ (codes "RESULTIS", TokenType.resultis)
    ∷ (codes "VALOF", TokenType.valof)
    ∷ (codes "FVALOF", TokenType.f_valof)
    ∷ (codes "BE", TokenType.be)
    ∷ (codes "TO", TokenType.to)
    ∷ (codes "BY", TokenType.by)
    ∷ (codes "INTO", TokenType.into)
    ∷ (codes "DO", TokenType.do_)
    ∷ (codes "THEN", TokenType.then_)
    ∷ (codes "ELSE", TokenType.else_)
    ∷ (codes "FREEVEC", TokenType.freevec)
    ∷ (codes "FREELIST", TokenType.freevec)
    ∷ (codes "OR", TokenType.or)
    ∷ (codes "TRUE", TokenType.boolean_literal)
    ∷ (codes "FALSE", TokenType.boolean_literal)
    ∷ (codes "REM", TokenType.remainder)
    ∷ (codes "EQV", TokenType.equivalence)
    ∷ (codes "NEQV", TokenType.not_equivalence)
    ∷ (codes "BREAK", TokenType.break)
    ∷ (codes "GET", TokenType.get)
    ∷ (codes "STRING", TokenType.string)
    ∷ (codes "BRK", TokenType.brk)
    ∷ (codes "TABLE", TokenType.table)
    ∷ (codes "FTABLE", TokenType.f_table)
    ∷ (codes "LEN", TokenType.len)
    ∷ (codes "LIST", TokenType.list)
    ∷ (codes "MANIFESTLIST", TokenType.manifest_list)
    ∷ (codes "HD", TokenType.hd)
    ∷ (codes "TL", TokenType.tl)
    ∷ (codes "TYPEOF", TokenType.type_of)
    ∷ (codes "FIRST", TokenType.hd)
    ∷ (codes "REST", TokenType.rest)
    ∷ (codes "CONCAT", TokenType.identifier)
    ∷ (codes "COPYLIST", TokenType.identifier)
    ∷ (codes "DEEPCOPYLIST", TokenType.identifier)
    ∷ (codes "FIND", TokenType.identifier)
    ∷ (codes "FILTER", TokenType.identifier)
    ∷ (codes "TYPE_INT", TokenType.type_int)
    ∷ (codes "TYPE_FLOAT", TokenType.type_float)
    ∷ (codes "TYPE_STRING", TokenType.type_string)
    ∷ (codes "TYPE_LIST", TokenType.type_list)
    ∷ (codes "TYPE_VEC", TokenType.type_vec)
    ∷ (codes "TYPE_POINTER", TokenType.type_pointer)
    ∷ (codes "TYPE_CONST", TokenType.type_const)
    ∷ (codes "TYPE_ANY", TokenType.type_any)
    ∷ (codes "TYPE_TABLE", TokenType.type_table)
    ∷ []
