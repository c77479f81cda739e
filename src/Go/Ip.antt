-- ===== src/Go/Ip.antt =====
-- `net.ParseIP(s) != nil`: the addresses that Go reads, as `netip.ParseAddr` reads them.
use hive_worker.Base.{
  ℕ, zero, suc, ◌+◌, ◌*◌, ◌-◌, Text, Bool, true, false, ◌&&◌, ◌||◌, not, [], ◌∷◌, leb, ◌==◌, nat_eq,
  contains, if◌then◌else◌, ℕ_discrete, ◌≡◌, refl, drop, List,
}
use hive_worker.Go.Text.{codes, is_empty, has_prefix}

is_digit : ℕ → Bool
is_digit c = leb b'0' c && leb c b'9'

-- One octet after another: the octet read so far, its digits, and the dots met.
ipv4_from : ℕ → ℕ → ℕ → Text → Bool
ipv4_from val dig_len dots [] = dots == 3 && not (dig_len == 0)
ipv4_from val dig_len dots (c ∷ s) =
    let octet = val * 10 + (c - b'0') in
    let more = ipv4_from octet (dig_len + 1) dots s in
    let next = ipv4_from 0 0 (dots + 1) s in
    if is_digit c
    then not (dig_len == 1 && val == 0) && leb octet 255 && more
    else c == b'.' && not (dig_len == 0) && not (dots == 3) && next

unfoldable pub is_ipv4 : Text → Bool
unfolding ipv4_from is_digit ℕ_discrete
is_ipv4 = ipv4_from 0 0 0

is_hex : ℕ → Bool
unfolding is_digit
is_hex c = is_digit c || (leb b'a' c && leb c b'f') || (leb b'A' c && leb c b'F')

-- The length of the run of hexadecimal digits, and what follows it.
hex_run : Text → ℕ × Text
hex_run [] = (0, [])
hex_run (c ∷ s) = let (n, rest) = hex_run s in if is_hex c then (n + 1, rest) else (0, c ∷ s)

-- At the end of the text: groups are missing exactly if a `::` stands for them.
end_of : ℕ → Bool → Bool
end_of zero ellipsis = not ellipsis
end_of (suc left) ellipsis = ellipsis

-- What follows a colon; `go` reads the groups to come.
after_colon : ℕ → Bool → (Bool → Text → Bool) → Text → Bool
after_colon left ellipsis go [] = false
after_colon left ellipsis go (c ∷ rest) =
    if c == b':'
    then not ellipsis && (if is_empty rest then end_of left true else go true rest)
    else go ellipsis (c ∷ rest)

-- What follows a group that begins at `s`: an IPv4 address may stand there in place of two groups.
after_group : ℕ → Bool → (Bool → Text → Bool) → Text → Text → Bool
unfolding end_of after_colon is_ipv4
after_group left ellipsis go s [] = end_of left ellipsis
after_group left ellipsis go s (c ∷ rest) =
    if c == b'.'
    then (ellipsis || left == 1) && leb 1 left && is_ipv4 s && end_of (left - 1) ellipsis
    else c == b':' && after_colon left ellipsis go rest

-- At most eight groups of one to four hexadecimal digits; one `::` stands for those missing.
ipv6_from : ℕ → Bool → Text → Bool
ipv6_from zero ellipsis s = is_empty s && not ellipsis
ipv6_from (suc left) ellipsis s =
    let (n, rest) = hex_run s in
    leb 1 n && leb n 4 && after_group left ellipsis (ipv6_from left) s rest

is_ipv6 : Text → Bool
unfolding ipv6_from after_group hex_run is_hex has_prefix
is_ipv6 s =
    if has_prefix s (codes "::")
    then is_empty (drop 2 s) || ipv6_from 8 true (drop 2 s)
    else ipv6_from 8 false s

-- The first dot or colon decides how the text is read.
by_separator : Text → Text → Bool
by_separator s [] = false
by_separator s (c ∷ rest) =
    if c == b'.' then is_ipv4 s else if c == b':' then is_ipv6 s else by_separator s rest

-- An address with a zone is none for `ParseIP`.
unfoldable pub is_ip : Text → Bool
unfolding by_separator is_ipv4 is_ipv6
is_ip s = not (contains b'%' s) && by_separator s s

all_of : (Text → Bool) → List Text → Bool
all_of p [] = true
all_of p (s ∷ more) = p s && all_of p more

accepted :
    all_of is_ip (
      codes "10.0.0.1"
      ∷ codes "255.255.255.255"
      ∷ codes "::"
      ∷ codes "::1"
      ∷ codes "fe80::1"
      ∷ codes "1:2:3:4:5:6:7:8"
      ∷ codes "1:2:3:4:5:6:7::"
      ∷ codes "::ffff:10.0.0.1"
      ∷ codes "1:2:3:4:5:6:10.0.0.1"
      ∷ [])
    ≡ true
unfolding is_ip all_of
accepted = refl

refused :
    all_of
      (λ s. not (is_ip s))
      ([]
        ∷ codes "10.0.0"
        ∷ codes "10.0.0.01"
        ∷ codes "256.0.0.1"
        ∷ codes "1..2.3"
        ∷ codes "1.2.3.4.5"
        ∷ codes "fe80::1%eth0"
        ∷ codes "1::2::3"
        ∷ codes "1:2:3:4:5:6:7:8:9"
        ∷ codes "12345::"
        ∷ codes "1:2:3:4:5:6:7:8::"
        ∷ codes "1:2:3"
        ∷ codes "host"
        ∷ [])
    ≡ true
unfolding is_ip all_of
refused = refl
