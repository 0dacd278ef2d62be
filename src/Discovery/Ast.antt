-- ===== src/Discovery/Ast.antt =====
-- The part of rustpython's syntax tree that src/discovery.rs reads. A node that its matches let
-- fall through is `other`; a number stands for its printed form, which is all that is read of it.
use tach_core.Base.{ℕ, Text, Bool, Option, List, [], ◌∷◌}

pub data Constant : Type 0 where
  int float str : Text → Constant
  bool : Bool → Constant
  none_value other_constant : Constant

mutual
  pub data Expr : Type 0 where
    call : (func : Expr) (args : Exprs) (keywords : Keywords) → Expr
    attribute : (value : Expr) (attr : Text) → Expr
    name : (id : Text) → Expr
    constant : (value : Constant) → Expr
    list tuple : (elts : Exprs) → Expr
    other : Expr

  pub data Exprs : Type 0 where
    nil : Exprs
    cons : Expr → Exprs → Exprs

  -- A keyword argument; `**kwargs` has no name.
  pub data Keywords : Type 0 where
    end : Keywords
    keyword : (arg : Option Text) (value : Expr) → Keywords → Keywords

abbrev pub elements : Exprs → List Expr
elements nil = []
elements (cons e es) = e ∷ elements es

-- A `def` or an `async def`: its name, the names of its positional arguments, its decorators and
-- the byte offset at which it starts.
pub record FunctionDef : Type 0 where
  pub name : Text
  pub args : List Text
  pub decorator_list : List Expr
  pub start : ℕ

-- A statement in a class body.
pub data Member : Type 0 where
  method async_method : FunctionDef → Member
  other_member : Member

pub data Stmt : Type 0 where
  function_def async_function_def : FunctionDef → Stmt
  class_def : (name : Text) (body : List Member) → Stmt
  other_stmt : Stmt
