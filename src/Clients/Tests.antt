-- ===== src/Clients/Tests.antt =====
-- Runs on concrete headers and addresses.
use standin_app_server.Prelude.{
  ◌≡◌, refl, List, [], ◌∷◌, ◌++◌, arith, none, some, String, Text, codes, integer,
}
use standin_app_server.Limits.Policy.{whole, is_disabled}
use standin_app_server.Limits.Counters.{ip_analyze}
use standin_app_server.Clients.Address.{
  join, entry, strip_port, trim, trim_start, trim_end, forwarded_client_ip, from_right, chain,
  non_empty, split, normalize_ip_key, is_space, split,
}
use standin_app_server.Clients.Forwarded.{IsEntry, forwarded_client_ip-claimed}
use standin_app_server.Clients.Prefix.{IsGroup, normalize_ip_key-prefix}
use standin_app_server.Clients.Burst.{Decides, rate_limit_by_ip, rate_limit_by_ip-Decides}

test_strip_port : strip_port (codes "[::1]:5678") ≡ codes "::1"
unfolding strip_port
test_strip_port = refl

test_short_chain : forwarded_client_ip (some (codes "1.2.3.4")) (integer 1) ≡ none
unfolding forwarded_client_ip from_right chain entry non_empty split strip_port trim trim_start
    trim_end is_space
test_short_chain = refl

seen-IsEntry : IsEntry (codes " 203.0.113.9")
unfolding entry strip_port trim trim_start trim_end is_space
seen-IsEntry = record {
  no_comma = (
    omega arith,
    (
      omega arith,
      (
        omega arith,
        (
          omega arith,
          (
            omega arith,
            (
              omega arith,
              (
                omega arith,
                (omega arith, (omega arith, (omega arith, (omega arith, (omega arith, tt))))),
              ),
            ),
          ),
        ),
      ),
    ),
  );
  left = λ p. cc;
}

forwarded_client_ip-claimed_example :
    forwarded_client_ip
      (some (codes "10.0.0.1" ++ (b',' ∷ join b',' (codes " 203.0.113.9" ∷ []))))
      (integer 0)
    ≡ some (entry (codes " 203.0.113.9"))
forwarded_client_ip-claimed_example =
    forwarded_client_ip-claimed (codes "10.0.0.1") (codes " 203.0.113.9") [] (seen-IsEntry, tt)

abbrev loopback : List Text
loopback =
    codes "0"
    ∷ codes "0"
    ∷ codes "0"
    ∷ codes "0"
    ∷ codes "0"
    ∷ codes "0"
    ∷ codes "0"
    ∷ codes "1"
    ∷ []

ab-IsGroup : IsGroup (codes "ab")
ab-IsGroup = ((λ p. cc), (refl, (refl, tt)))

normalize_ip_key-prefix_example :
    normalize_ip_key (
      join b':' (
        codes "ab"
        ∷ codes "ab"
        ∷ codes "ab"
        ∷ codes "ab"
        ∷ codes "ab"
        ∷ codes "ab"
        ∷ codes "ab"
        ∷ codes "ab"
        ∷ []))
    ≡ join b':' (codes "ab" ∷ codes "ab" ∷ codes "ab" ∷ codes "ab" ∷ []) ++ codes "::/64"
normalize_ip_key-prefix_example =
    normalize_ip_key-prefix (codes "ab") (codes "ab") (codes "ab") (codes "ab")
      (codes "ab" ∷ codes "ab" ∷ codes "ab" ∷ codes "ab" ∷ [])
      (
        ab-IsGroup,
        (
          ab-IsGroup,
          (ab-IsGroup, (ab-IsGroup, (ab-IsGroup, (ab-IsGroup, (ab-IsGroup, (ab-IsGroup, tt)))))),
        ),
      )
      refl

abbrev one_digest : Text → String
one_digest t = "d"

rate_limit_by_ip-Decides_example :
    Decides one_digest (codes "salt") ip_analyze (whole 2) 60 90000 (codes "203.0.113.9") [] (
      rate_limit_by_ip one_digest
        (codes "salt")
        ip_analyze
        (whole 2)
        60
        90000
        (codes "203.0.113.9")
        [])
unfolding is_disabled
rate_limit_by_ip-Decides_example =
    rate_limit_by_ip-Decides one_digest (codes "salt") ip_analyze (whole 2) 60 90000
      (codes "203.0.113.9") [] refl (omega arith)
