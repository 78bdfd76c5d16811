-- ===== src/Predicate/Shorter.antt =====
-- What a rule of the grammar of Predicate.Grammar reads is not empty.
use aat.Base.{◌<◌, List, length, arith}
use aat.Predicate.Token.{Token}
use aat.Predicate.Syntax.{Floats, Node, Nodes}
use aat.Predicate.Grammar.{
  IsOr, or_one, or_more, IsAnd, and_one, and_more, IsComparison, plain, compared, IsIn, no_in,
  with_in, IsUnary, no_bang, negated, IsPrimary, paren, empty_array, full_array, a_number, a_string,
  a_bool, an_ident, IsElements, one_element, more_elements,
}

module _ {fl : Floats} where
  mutual
    pub IsOr-lt : {ts us : List Token} {n : Node fl.Float} → IsOr fl ts n us → length us < length ts
    IsOr-lt (or_one d) = IsAnd-lt d
    IsOr-lt (or_more d e) = omega (arith, IsOr-lt d, IsAnd-lt e)

    pub IsAnd-lt :
        {ts us : List Token} {n : Node fl.Float} → IsAnd fl ts n us → length us < length ts
    IsAnd-lt (and_one d) = IsComparison-lt d
    IsAnd-lt (and_more d e) = omega (arith, IsAnd-lt d, IsComparison-lt e)

    pub IsComparison-lt :
        {ts us : List Token} {n : Node fl.Float} → IsComparison fl ts n us → length us < length ts
    IsComparison-lt (plain d) = IsIn-lt d
    IsComparison-lt (compared q d e) = omega (arith, IsIn-lt d, IsIn-lt e)

    pub IsIn-lt : {ts us : List Token} {n : Node fl.Float} → IsIn fl ts n us → length us < length ts
    IsIn-lt (no_in d) = IsUnary-lt d
    IsIn-lt (with_in d e) = omega (arith, IsUnary-lt d, IsPrimary-lt e)

    pub IsUnary-lt :
        {ts us : List Token} {n : Node fl.Float} → IsUnary fl ts n us → length us < length ts
    IsUnary-lt (no_bang d) = IsPrimary-lt d
    IsUnary-lt (negated d) = omega (arith, IsUnary-lt d)

    pub IsPrimary-lt :
        {ts us : List Token} {n : Node fl.Float} → IsPrimary fl ts n us → length us < length ts
    IsPrimary-lt (paren d) = omega (arith, IsOr-lt d)
    IsPrimary-lt empty_array = omega arith
    IsPrimary-lt (full_array d) = omega (arith, IsElements-lt d)
    IsPrimary-lt (a_number q) = omega arith
    IsPrimary-lt a_string = omega arith
    IsPrimary-lt a_bool = omega arith
    IsPrimary-lt an_ident = omega arith

    pub IsElements-lt :
        {ts us : List Token} {ms : Nodes fl.Float} → IsElements fl ts ms us → length us < length ts
    IsElements-lt (one_element d) = IsOr-lt d
    IsElements-lt (more_elements d e q) = omega (arith, IsElements-lt d, IsOr-lt e)
