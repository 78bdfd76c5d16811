-- ===== src/Predicate/Syntax.antt =====
-- The syntax tree of internal/predicate/predicate.go, and the numbers that it rests on.
use aat.Base.{ℕ, List, [], ◌∷◌, ◌++◌, Bool, Option}
use aat.Base.Text.{Text}

-- Go's float64, which the language provides: the values, `strconv.ParseFloat` on a decimal text
-- (`none` is its range error), `strconv.FormatFloat(x, 'f', -1, 64)`, the conversion of an integer
-- with its sign (`true` is negative), and the comparisons `==` and `<`.
pub record Floats : Type 1 where
  pub Float : Type 0
  pub parse_float : Text → Option Float
  pub format_float : Float → Text
  pub of_int : Bool → ℕ → Float
  pub feq : Float → Float → Bool
  pub flt : Float → Float → Bool

pub data BinOp : Type 0 where
  or_op and_op in_op eq_op ne_op lt_op gt_op le_op ge_op : BinOp

module _ (F : Type 0) where
  mutual
    -- `literalNode` holds a float64, a string or a bool. The elements of `arrayLiteralNode` are
    -- the second type, since Go's slice of nodes would nest the type in itself.
    pub data Node : Type 0 where
      num_lit : F → Node
      str_lit : Text → Node
      bool_lit : Bool → Node
      ident_node : Text → Node
      array_node : Nodes → Node
      not_node : Node → Node
      binary : BinOp → Node → Node → Node

    pub data Nodes : Type 0 where
      nil : Nodes
      cons : Node → Nodes → Nodes

module _ {F : Type 0} where
  abbrev pub snoc : Nodes F → Node F → Nodes F
  snoc nil n = cons n nil
  snoc (cons m ms) n = cons m (snoc ms n)

  unfoldable mutual
    -- The names that a tree reads, in order.
    pub idents : Node F → List Text
    idents (num_lit x) = []
    idents (str_lit s) = []
    idents (bool_lit b) = []
    idents (ident_node s) = s ∷ []
    idents (array_node ms) = idents_list ms
    idents (not_node n) = idents n
    idents (binary o l r) = idents l ++ idents r

    pub idents_list : Nodes F → List Text
    idents_list nil = []
    idents_list (cons n ms) = idents n ++ idents_list ms
