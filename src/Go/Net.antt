-- ===== src/Go/Net.antt =====
-- `net.JoinHostPort`: a host that holds a colon is bracketed.
use hive_worker.Base.{
  ◌≡◌, ◌≢◌, refl, sym, ap, ◌∙◌, true, false, Text, Option, none, some, [], ◌∷◌, ◌++◌, arith,
  contains, nat_eq, Bool-cases, if◌then◌else◌, inl, inr, ◌==◌, contains-append,
}
use mathlib.Core.List.{append_assoc, append_cancel_right}

unfoldable pub join_host_port : Text → Text → Text
join_host_port host port =
    if contains b':' host then b'[' ∷ (host ++ (b']' ∷ b':' ∷ port)) else host ++ (b':' ∷ port)

-- The text before the last colon, and the text after it.
last_colon : Text → Option (Text × Text)
last_colon [] = none
last_colon (c ∷ s) = elim (last_colon s) [
  | some (before, after) ↦ some (c ∷ before, after)
  | none ↦ if c == b':' then some ([], s) else none
]

last_colon-none : (s : Text) → contains b':' s ≡ false → last_colon s ≡ none
unfolding last_colon
last_colon-none [] h = refl
last_colon-none (c ∷ s) h = ground (arith, last_colon-none s)

last_colon-append :
    (s t : Text) → contains b':' t ≡ false → last_colon (s ++ (b':' ∷ t)) ≡ some (s, t)
unfolding last_colon
last_colon-append [] t h = ground (arith, last_colon-none t h)
last_colon-append (c ∷ s) t h = rw (last_colon-append s t h) refl

-- What stands before the port.
abbrev host_part : Text → Text
host_part host = if contains b':' host then b'[' ∷ (host ++ (b']' ∷ [])) else host

join_host_port-parts :
    (host port : Text) → join_host_port host port ≡ host_part host ++ (b':' ∷ port)
unfolding join_host_port
join_host_port-parts host port = elim (Bool-cases (contains b':' host)) [
  | inl six ↦ rw (six, append_assoc)
  | inr plain ↦ rw plain
]

bracketed-ne :
    (a b : Text) → contains b':' a ≡ true → contains b':' b ≡ false → b'[' ∷ (a ++ (b']' ∷ [])) ≢ b
bracketed-ne a b h k e = ground (arith, ap (contains b':') e, contains-append b':' a (b']' ∷ []))

host_part_injective : (a b : Text) → host_part a ≡ host_part b → a ≡ b
host_part_injective a b e = elim (Bool-cases (contains b':' a)) [
  | inl six ↦ elim (Bool-cases (contains b':' b)) [
    | inl six' ↦ append_cancel_right a b (b']' ∷ []) (ground arith)
    | inr plain ↦ absurd (bracketed-ne a b six plain (ground arith))
  ]
  | inr plain ↦ elim (Bool-cases (contains b':' b)) [
    | inl six ↦ absurd (bracketed-ne b a six plain (ground arith))
    | inr plain' ↦ ground arith
  ]
]

-- An address determines its host and its port, if the port holds no colon.
pub join_host_port_injective :
    (host port host' port' : Text)
    → contains b':' port ≡ false
    → contains b':' port' ≡ false
    → join_host_port host port ≡ join_host_port host' port'
    → (host ≡ host') × (port ≡ port')
join_host_port_injective host port host' port' h h' e =
    (host_part_injective host host' (ground (arith, parts)), ground (arith, parts))
  where
    parts :
        ◌≡◌ {A = Option (Text × Text)} (some (host_part host, port)) (some (host_part host', port'))
    parts =
        sym (last_colon-append (host_part host) port h)
        ∙ ap last_colon
            (sym (join_host_port-parts host port) ∙ e ∙ join_host_port-parts host' port')
        ∙ last_colon-append (host_part host') port' h'
