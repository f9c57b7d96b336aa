-- ===== src/Netip/Format.antt =====
-- Go's package net/netip: `Addr.String` and `Prefix.String`.
use blacktemple_kn.Prelude.{
  ℕ, suc, ◌+◌, ◌-◌, ◌/◌, ◌%◌, ◌^◌, ◌==◌, leb, ltb, ◌&&◌, ◌||◌, if◌then◌else◌, List, [], ◌∷◌, ◌++◌,
  Text, codes,
}
use blacktemple_kn.Strings.Decimal.{decimal, decimal_loop}
use blacktemple_kn.Netip.Addr.{Addr, zero_addr, v4, v6, is_4_in_6, Prefix, unset, prefix}

unfoldable pub format_4 : ℕ → Text
unfolding decimal decimal_loop
format_4 n =
    decimal (n / 2 ^ 24)
    ++ (b'.'
        ∷ (decimal (n / 2 ^ 16 % 256)
            ++ (b'.' ∷ (decimal (n / 2 ^ 8 % 256) ++ (b'.' ∷ decimal (n % 256))))))

hex_digit : ℕ → ℕ
hex_digit d = if ltb d 10 then b'0' + d else b'a' + (d - 10)

-- A group in hexadecimal digits with no leading zeros.
format_group : ℕ → Text
unfolding hex_digit
format_group n =
    if ltb n 16
    then hex_digit n ∷ []
    else if ltb n 256
    then hex_digit (n / 16) ∷ hex_digit (n % 16) ∷ []
    else if ltb n 4096
    then hex_digit (n / 256) ∷ hex_digit (n / 16 % 16) ∷ hex_digit (n % 16) ∷ []
    else hex_digit (n / 4096)
      ∷ hex_digit (n / 256 % 16)
      ∷ hex_digit (n / 16 % 16)
      ∷ hex_digit (n % 16)
      ∷ []

-- How many groups from here on are zero.
zero_run : List ℕ → ℕ
zero_run [] = 0
zero_run (g ∷ gs) = let rest = zero_run gs in if g == 0 then suc rest else 0

-- The first of the longest runs of at least two zero groups: where it starts, and its length. The
-- arguments are the index of the next group, and the best run so far.
longest : ℕ → ℕ → ℕ → List ℕ → ℕ × ℕ
longest i start len [] = (start, len)
longest i start len (g ∷ gs) =
    let run = zero_run (g ∷ gs) in
    if leb 2 run && ltb len run then longest (suc i) i run gs else longest (suc i) start len gs

-- The groups in turn; the run of `skip` groups at index `start` is written as a double colon.
write_groups : ℕ → ℕ → ℕ → ℕ → List ℕ → Text
write_groups i start len pending [] = []
write_groups i start len pending (g ∷ gs) =
    let here = write_groups (suc i) start len 0 gs in
    let skipped = write_groups (suc i) start len (pending - 1) gs in
    if ltb 0 pending
    then skipped
    else if i == start && ltb 0 len
    then codes "::" ++ write_groups (suc i) start len (len - 1) gs
    else if i == 0 || (ltb 0 len && i == start + len)
    then format_group g ++ here
    else b':' ∷ (format_group g ++ here)

groups_of : ℕ → List ℕ
groups_of n =
    n / 2 ^ 112
    ∷ n / 2 ^ 96 % 65536
    ∷ n / 2 ^ 80 % 65536
    ∷ n / 2 ^ 64 % 65536
    ∷ n / 2 ^ 48 % 65536
    ∷ n / 2 ^ 32 % 65536
    ∷ n / 2 ^ 16 % 65536
    ∷ n % 65536
    ∷ []

unfoldable pub format_6 : ℕ → Text
unfolding format_4 is_4_in_6 groups_of longest zero_run write_groups format_group
format_6 n =
    if is_4_in_6 n
    then codes "::ffff:" ++ format_4 (n % 2 ^ 32)
    else let (start, len) = longest 0 0 0 (groups_of n) in write_groups 0 start len 0 (groups_of n)

unfoldable pub format_addr : Addr → Text
unfolding format_6
format_addr zero_addr = codes "invalid IP"
format_addr (v4 n) = format_4 n
format_addr (v6 n []) = format_6 n
format_addr (v6 n (z ∷ zs)) = format_6 n ++ (b'%' ∷ z ∷ zs)

unfoldable pub format_prefix : Prefix → Text
unfolding format_addr decimal decimal_loop
format_prefix unset = codes "invalid Prefix"
format_prefix (prefix a bits) = format_addr a ++ (b'/' ∷ decimal bits)
