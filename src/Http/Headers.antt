-- ===== src/Http/Headers.antt =====
-- `http.Header`: a map from canonical names to lists of values.
use Prim.Native.Nat.{ℕ, ◌+◌, ◌-◌, ◌<◌, compare, Ordering}
use Prim.Native.Char.{Char, char, code, IsScalar}
use mathlib.Core.Logic.{dite}
use native.Mathlib.Decide.{dec_le}
use tanugate.Common.{
  String, ◌≡◌, refl, Bool, true, ◌&&◌, ◌||◌, Option, none, some, List, [], ◌∷◌, ◌++◌, arith, ◌==◌,
  leb, ◌===◌, if◌then◌else◌, lookup, insert, delete, lookup-insert, lookup-delete,
}

IsScalar_of_lt : (n : ℕ) → n < 55296 → IsScalar n
IsScalar_of_lt n h = let e : compare n 55296 ≡ Ordering.lt = ground arith in rw e tt

-- ASCII case mapping.
unfoldable pub lower_char : Char → Char
unfolding dec_le IsScalar_of_lt
lower_char c =
    dite (dec_le 65 (code c))
      (λ _.
        dite (dec_le (code c) 90)
          (λ h. char (code c + 32) (IsScalar_of_lt (code c + 32) (omega arith))) (λ _. c))
      (λ _. c)

upper_char : Char → Char
unfolding dec_le IsScalar_of_lt
upper_char c =
    dite (dec_le 97 (code c))
      (λ _.
        dite (dec_le (code c) 122)
          (λ h. char (code c - 32) (IsScalar_of_lt (code c - 32) (omega arith))) (λ _. c))
      (λ _. c)

-- The characters of a token (RFC 7230), which a header name consists of.
is_token_char : ℕ → Bool
is_token_char k =
    (leb b'a' k && leb k b'z')
    || (leb b'A' k && leb k b'Z')
    || (leb b'0' k && leb k b'9')
    || k == b'-'
    || k == b'!'
    || k == b'#'
    || k == b'$'
    || k == b'%'
    || k == b'&'
    || k == 39
    || k == b'*'
    || k == b'+'
    || k == b'.'
    || k == b'^'
    || k == b'_'
    || k == b'`'
    || k == b'|'
    || k == b'~'

is_token : String → Bool
unfolding is_token_char
is_token String.[] = true
is_token (String.◌∷◌ c s) = is_token_char (code c) && is_token s

-- Upper case at the start and after a dash, lower case elsewhere.
title : Bool → String → String
unfolding lower_char upper_char
title up String.[] = String.[]
title up (String.◌∷◌ c s) =
    String.◌∷◌ (if up then upper_char c else lower_char c) (title (code c == b'-') s)

-- `textproto.CanonicalMIMEHeaderKey`: a name that is no token is left as it is.
unfoldable pub canonical : String → String
unfolding is_token title
canonical name = if is_token name then title true name else name

abbrev pub Header : Type 0
Header = List (String × List String)

abbrev first_or_empty : Option (List String) → String
first_or_empty none = ""
first_or_empty (some []) = ""
first_or_empty (some (v ∷ _)) = v

abbrev or_empty : Option (List String) → List String
or_empty none = []
or_empty (some vs) = vs

-- `Header.Get`, `Values`, `Set`, `Add` and `Del`.
unfoldable pub get : Header → String → String
get h name = first_or_empty (lookup (canonical name) h)

unfoldable pub values : Header → String → List String
values h name = or_empty (lookup (canonical name) h)

unfoldable pub set : Header → String → String → Header
set h name v = insert (canonical name) (v ∷ []) h

unfoldable pub add : Header → String → String → Header
unfolding values
add h name v = insert (canonical name) (values h name ++ v ∷ []) h

unfoldable pub del : Header → String → Header
del h name = delete (canonical name) h

pub get-set :
    (h : Header) (name other v : String)
    → get (set h name v) other ≡ (if canonical name === canonical other then v else get h other)
unfolding get set
get-set h name other v = ground (arith, lookup-insert (canonical name) (canonical other) (v ∷ []) h)

pub values-set :
    (h : Header) (name other v : String)
    → values (set h name v) other
      ≡ (if canonical name === canonical other then v ∷ [] else values h other)
unfolding values set
values-set h name other v =
    ground (arith, lookup-insert (canonical name) (canonical other) (v ∷ []) h)

pub values-add :
    (h : Header) (name other v : String)
    → values (add h name v) other
      ≡ (if canonical name === canonical other then values h name ++ v ∷ [] else values h other)
unfolding values add
values-add h name other v =
    ground (arith, lookup-insert (canonical name) (canonical other) (values h name ++ v ∷ []) h)

pub values-del :
    (h : Header) (name other : String)
    → values (del h name) other
      ≡ (if canonical name === canonical other then [] else values h other)
unfolding values del
values-del h name other = ground (arith, lookup-delete (canonical name) (canonical other) h)

canonical_example : canonical "x-request-ID" ≡ "X-Request-Id"
unfolding canonical
canonical_example = refl
