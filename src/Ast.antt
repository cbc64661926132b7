-- ===== src/Ast.antt =====
-- AST.h: the classes of the syntax tree. A pointer that may be null is a tree with a constructor
-- `null` of its own; a double is the pattern of its 64 bits.

pub mod Clone
use bcpl.Prelude.{ℕ, Bool, Option, List, Text}
use bcpl.Prelude.Int.{ℤ}

-- BinaryOp::Operator.
pub data Operator : Type 0 where
  add subtract multiply divide remainder : Operator
  equal not_equal less less_equal greater greater_equal : Operator
  logical_and bitwise_and logical_or bitwise_or equivalence not_equivalence : Operator
  left_shift right_shift : Operator
  float_add float_subtract float_multiply float_divide : Operator
  float_equal float_not_equal float_less float_less_equal float_greater float_greater_equal :
      Operator

-- UnaryOp::Operator.
pub data UnaryOperator : Type 0 where
  address_of indirection logical_not bitwise_not negate float_convert : UnaryOperator
  float_sqrt float_floor float_truncate length_of head_of tail_of : UnaryOperator
  tail_of_non_destructive head_of_as_float type_of : UnaryOperator

-- NumberLiteral, with the value of its literal_type.
pub data Number : Type 0 where
  integer : ℤ → Number
  float : ℕ → Number

-- RepeatStatement::LoopType.
pub data LoopType : Type 0 where
  repeat repeat_while repeat_until : LoopType

mutual
  -- ExprPtr.
  pub data Expression : Type 0 where
    null : Expression
    list_expression : Expressions → Bool → Expression
    vec_initializer : Expressions → Expression
    number_literal : Number → Expression
    string_literal : Text → Expression
    char_literal : ℕ → Expression
    boolean_literal : Bool → Expression
    variable_access : (name unique_name : Text) → Expression
    binary_op : Operator → (left right : Expression) → Expression
    unary_op : UnaryOperator → Expression → Expression
    vector_access : (vector_expr index_expr : Expression) → Expression
    char_indirection : (string_expr index_expr : Expression) → Expression
    float_vector_indirection : (vector_expr index_expr : Expression) → Expression
    bitfield_access : (base start_bit width : Expression) → Expression
    function_call : Expression → (arguments : Expressions) → Expression
    sys_call : (function_name : Text) → Expression → (arguments : Expressions) → Expression
    conditional : (condition true_expr false_expr : Expression) → Expression
    valof : Statement → Expression
    float_valof : Statement → Expression
    vec_allocation : Expression → (variable_name : Text) → Expression
    string_allocation : Expression → Expression
    fvec_allocation : Expression → (variable_name : Text) → Expression
    table_expression : Expressions → Bool → Expression

  pub data Expressions : Type 0 where
    nil : Expressions
    cons : Expression → Expressions → Expressions

  -- StmtPtr.
  pub data Statement : Type 0 where
    null_statement : Statement
    let_declaration : (names : List Text) → Expressions → (is_float : Bool) → Statement
    for_each :
        (loop_variable type_variable : Text)
        → Expression
        → Statement
        → (filter_type inferred_type : ℕ) → Statement
    assignment : (lhs rhs : Expressions) → Statement
    free_statement : Expression → Statement
    routine_call : Expression → (arguments : Expressions) → Statement
    if_statement : Expression → Statement → Statement
    unless_statement : Expression → Statement → Statement
    test_statement : Expression → (then_branch else_branch : Statement) → Statement
    while_statement : Expression → Statement → Statement
    until_statement : Expression → Statement → Statement
    repeat_statement : LoopType → Statement → Expression → Statement
    for_statement :
        (loop_variable unique_loop unique_step unique_end : Text)
        → (start_expr end_expr step_expr : Expression) → Statement
        → Statement
    switchon : Expression → Cases → Case → Statement
    goto_statement : Expression → Statement
    return_statement : Statement
    finish_statement : Expression → Expressions → Statement
    break_statement : Statement
    brk_statement : Statement
    loop_statement : Statement
    endcase_statement : Statement
    resultis : Expression → Statement
    compound : Statements → Statement
    block : Declarations → Statements → Statement
    string_statement : Expression → Statement
    label_target : Text → Statement
    conditional_branch : (condition target_label : Text) → Expression → Statement

  pub data Statements : Type 0 where
    no_statements : Statements
    statement : Statement → Statements → Statements

  -- A pointer to a CaseStatement or to a DefaultStatement.
  pub data Case : Type 0 where
    null_case : Case
    case_statement : Expression → Statement → (resolved_constant_value : Option ℤ) → Case
    default_statement : Statement → Case

  pub data Cases : Type 0 where
    no_cases : Cases
    a_case : Case → Cases → Cases

  -- DeclPtr.
  pub data Declaration : Type 0 where
    null_declaration : Declaration
    manifest_declaration : Text → ℤ → Declaration
    static_declaration : Text → Expression → (is_float : Bool) → Declaration
    global_declaration : List (Text × ℤ) → Declaration
    global_variable : (names : List Text) → Expressions → (is_float : Bool) → Declaration
    function_declaration : Text → (parameters : List Text) → Expression → Declaration
    routine_declaration : Text → (parameters : List Text) → Statement → Declaration
    label_declaration : Text → Statement → Declaration

  pub data Declarations : Type 0 where
    no_declarations : Declarations
    declaration : Declaration → Declarations → Declarations

pub record Program : Type 0 where
  pub declarations : Declarations
  pub statements : Statements
