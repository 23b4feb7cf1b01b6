-- ===== src/Clients/Address.antt =====
-- clientIp.ts. Texts are lists of character codes, as Node gives the bytes of a header.
use standin_app_server.Prelude.{
  ℕ, ◌+◌, ◌-◌, Bool, true, false, ◌&&◌, ◌||◌, List, [], ◌∷◌, ◌++◌, map, if◌then◌else◌, ltb, leb,
  ◌==◌, Option, none, some, Text, codes, length, get_elem?, take, Number, not_integer, negative,
  integer, replicate,
}

-- `text.split(separator)` for one character.
unfoldable pub prepend : ℕ → List Text → List Text
prepend c [] = (c ∷ []) ∷ []
prepend c (p ∷ ps) = (c ∷ p) ∷ ps

unfoldable pub split : ℕ → Text → List Text
unfolding prepend
split s [] = [] ∷ []
split s (c ∷ cs) = let rest = split s cs in if c == s then [] ∷ rest else prepend c rest

-- `parts.join(separator)`
unfoldable pub join : ℕ → List Text → Text
join s [] = []
join s (p ∷ []) = p
join s (p ∷ q ∷ ps) = p ++ (s ∷ join s (q ∷ ps))

-- The white space of `trim` among the bytes.
unfoldable pub is_space : ℕ → Bool
is_space c = (leb 9 c && leb c 13) || ((c == 32) || (c == 160))

unfoldable pub trim_start : Text → Text
trim_start [] = []
trim_start (c ∷ cs) = let rest = trim_start cs in if is_space c then rest else c ∷ cs

unfoldable pub trim_end : Text → Text
trim_end [] = []
trim_end (c ∷ cs) = elim (trim_end cs) [
  | [] ↦ if is_space c then [] else c ∷ []
  | d ∷ ds ↦ c ∷ d ∷ ds
]

unfoldable pub trim : Text → Text
trim t = trim_end (trim_start t)

is_digit : ℕ → Bool
is_digit c = leb b'0' c && leb c b'9'

all_digits : Text → Bool
all_digits [] = true
all_digits (c ∷ cs) = is_digit c && all_digits cs

-- (?::\d+)?$
is_port : Text → Bool
is_port [] = true
is_port (c ∷ []) = false
is_port (c ∷ d ∷ ds) = (c == b':') && all_digits (d ∷ ds)

-- The text before the first ']', and the one after it.
until_bracket : Text → Option (Text × Text)
until_bracket [] = none
until_bracket (c ∷ cs) =
    if c == b']'
    then some ([], cs)
    else elim (until_bracket cs) [ none ↦ none | some (a, b) ↦ some (c ∷ a, b) ]

address_in : Option (Text × Text) → Option Text
address_in none = none
address_in (some ([], rest)) = none
address_in (some (c ∷ cs, rest)) = if is_port rest then some (c ∷ cs) else none

-- /^\[([^\]]+)\](?::\d+)?$/
bracketed : Text → Option Text
bracketed [] = none
bracketed (c ∷ cs) = if c == b'[' then address_in (until_bracket cs) else none

unfoldable pub count : ℕ → Text → ℕ
count s [] = 0
count s (c ∷ cs) = (if c == s then 1 else 0) + count s cs

before_colon : Text → Text
before_colon [] = []
before_colon (c ∷ cs) = let rest = before_colon cs in if c == b':' then [] else c ∷ rest

unfoldable pub strip_port : Text → Text
unfolding bracketed address_in until_bracket is_port all_digits is_digit count before_colon
strip_port value = elim (bracketed value) [
  | some address ↦ address
  | none ↦ if count b':' value == 1 then before_colon value else value
]

-- `filter(Boolean)`: the texts that are not empty.
unfoldable pub non_empty : List Text → List Text
non_empty [] = []
non_empty ([] ∷ ps) = non_empty ps
non_empty ((c ∷ cs) ∷ ps) = (c ∷ cs) ∷ non_empty ps

unfoldable pub entry : Text → Text
entry v = strip_port (trim v)

unfoldable pub chain : Text → List Text
chain header = non_empty (map entry (split b',' header))

-- The address that many places from the right end.
unfoldable pub from_right : ℕ → List Text → Option Text
from_right hops addresses =
    if ltb hops (length addresses) then get_elem? addresses (length addresses - 1 - hops) else none

-- An empty header counts as none.
unfoldable pub forwarded_client_ip : Option Text → Number → Option Text
forwarded_client_ip none hops = none
forwarded_client_ip (some header) not_integer = none
forwarded_client_ip (some header) (negative n) = none
forwarded_client_ip (some []) (integer hops) = none
forwarded_client_ip (some (c ∷ cs)) (integer hops) = from_right hops (chain (c ∷ cs))

unfoldable pub contains : ℕ → Text → Bool
contains s t = ltb 0 (count s t)

-- `toLowerCase` of ASCII letters, the only ones that addresses have.
unfoldable pub lower : Text → Text
lower [] = []
lower (c ∷ cs) = (if leb b'A' c && leb c b'Z' then c + 32 else c) ∷ lower cs

unfoldable pub starts_colon : Text → Bool
starts_colon [] = false
starts_colon (c ∷ cs) = c == b':'

-- The parts of a text, and those of it without its first character.
unfoldable pub double_parts : Text → List Text × List Text
unfolding starts_colon prepend
double_parts [] = ([] ∷ [], [] ∷ [])
double_parts (c ∷ cs) =
    let (now, next) = double_parts cs in
    (if (c == b':') && starts_colon cs then [] ∷ next else prepend c now, now)

-- `address.split("::")`
unfoldable pub split_double : Text → List Text
split_double t = (double_parts t).0

unfoldable pub groups : Text → List Text
groups t = non_empty (split b':' t)

-- The groups on both sides of '::', filled with zeros to eight.
unfoldable pub filled : List Text → List Text → Option (List Text)
filled left right =
    if ltb 8 (length left + length right)
    then none
    else some (left ++ (replicate (8 - length left - length right) (b'0' ∷ []) ++ right))

unfoldable pub halves : List Text → Option (List Text)
halves [] = none
halves (head ∷ []) = if length (groups head) == 8 then some (groups head) else none
halves (head ∷ tail ∷ []) = filled (groups head) (groups tail)
halves (head ∷ tail ∷ more ∷ rest) = none

unfoldable pub expand_ipv6 : Text → Option (List Text)
expand_ipv6 address = if contains b'.' address then none else halves (split_double address)

unfoldable pub prefix_key : Text → Option (List Text) → Text
prefix_key address none = address
prefix_key address (some gs) = join b':' (take 4 gs) ++ codes "::/64"

unfoldable pub normalize_ip_key : Text → Text
normalize_ip_key ip =
    let address = lower (trim ip) in
    if contains b':' address then prefix_key address (expand_ipv6 address) else address

-- `digest` is the first 32 characters of the SHA-256 of a text, in hexadecimal digits.
unfoldable pub ip_bucket_key {ℓ} :
    {Key : Type ℓ} → (digest : Text → Key) → (salt : Text) → Text → Key
ip_bucket_key digest salt ip = digest (salt ++ (b':' ∷ normalize_ip_key ip))

-- An address of the socket, when the header gives none.
given : Option Text → Option Text → Text
given (some (c ∷ cs)) socket = c ∷ cs
given _ none = codes "unknown"
given _ (some address) = address

unfoldable pub client_ip : Option Text → Number → Option Text → Text
unfolding given
client_ip header hops socket = given (forwarded_client_ip header hops) socket
