-- ===== src/RateLimit/ClientAddress.antt =====
-- The key of a request for the rate limiter: the address of the client behind trusted proxies
-- (internal/httpx/ratelimit.go). The addresses of net/netip are a record of operations, with none for
-- an address that does not parse.
use go_invoicing.Base.{
  ℕ, Bool, true, false, ◌==◌, Option, none, some, List, [], ◌∷◌, ◌++◌, if◌then◌else◌,
}
use go_invoicing.Base.Text.{Text, codes, trim_space}

pub record NetOps : Type 1 where
  pub Addr : Type 0
  pub Prefix : Type 0
  pub parse : Text → Option Addr  -- netip.ParseAddr
  pub unmap : Addr → Addr
  pub contains : Prefix → Addr → Bool
  pub host : Text → Option Text  -- the host of net.SplitHostPort
  pub is6 : Addr → Bool
  pub prefix64 : Addr → Text  -- Prefix(64), as a text
  pub print : Addr → Text

-- strings.Join(values, ",")
abbrev pub join_commas : List Text → Text
join_commas [] = []
join_commas (v ∷ []) = v
join_commas (v ∷ w ∷ vs) = v ++ (b',' ∷ join_commas (w ∷ vs))

abbrev pub starting : ℕ → List Text → List Text
starting c [] = (c ∷ []) ∷ []
starting c (w ∷ ws) = (c ∷ w) ∷ ws

-- strings.Split(s, ",")
abbrev pub split_commas : Text → List Text
split_commas [] = [] ∷ []
split_commas (c ∷ s) = let rest = split_commas s in if c == b',' then [] ∷ rest else starting c rest

abbrev pub backwards : List Text → List Text
backwards [] = []
backwards (x ∷ xs) = backwards xs ++ (x ∷ [])

module _ (net : NetOps) where
  abbrev pub unmapped : Option net.Addr → Option net.Addr
  unmapped none = none
  unmapped (some a) = some (net.unmap a)

  abbrev or_whole : Option Text → Text → Text
  or_whole none raw = raw
  or_whole (some host) raw = host

  unfoldable pub peer_address : Text → Option net.Addr
  peer_address remote = unmapped (net.parse (or_whole (net.host remote) remote))

  unfoldable pub address_key : Option net.Addr → Text → Text
  address_key none raw = codes "addr:" ++ raw
  address_key (some a) raw = codes "addr:" ++ (if net.is6 a then net.prefix64 a else net.print a)

  abbrev pub is_trusted : List net.Prefix → net.Addr → Bool
  is_trusted [] a = false
  is_trusted (p ∷ ps) a = let rest = is_trusted ps a in if net.contains p a then true else rest

  abbrev pub next_hop : (net.Addr → Bool) → Option net.Addr → Option net.Addr → Option net.Addr
  next_hop trusts none rest = none
  next_hop trusts (some a) rest = if trusts a then rest else some a

  -- The first untrusted hop, from the right; none where one does not parse, or where all are trusted.
  abbrev pub client_hop : (net.Addr → Bool) → List Text → Option net.Addr
  client_hop trusts [] = none
  client_hop trusts (hop ∷ hops) =
      let rest = client_hop trusts hops in
      next_hop trusts (unmapped (net.parse (trim_space hop))) rest

  abbrev pub hops : List Text → List Text
  hops forwarded = backwards (split_commas (join_commas forwarded))

  abbrev key_of_hop : Option net.Addr → Text → Option net.Addr → Text
  key_of_hop peer remote none = address_key peer remote
  key_of_hop peer remote (some hop) = address_key (some hop) []

  abbrev pub key_behind : List net.Prefix → Text → List Text → Option net.Addr → Text
  key_behind trusted remote forwarded none = address_key none remote
  key_behind trusted remote forwarded (some peer) =
      if is_trusted trusted peer
      then key_of_hop (some peer) remote (client_hop (is_trusted trusted) (hops forwarded))
      else address_key (some peer) remote

  -- The key for the remote address and the values of X-Forwarded-For.
  unfoldable pub client_address_key : List net.Prefix → Text → List Text → Text
  client_address_key [] remote forwarded = address_key (peer_address remote) remote
  client_address_key (p ∷ ps) remote forwarded =
      key_behind (p ∷ ps) remote forwarded (peer_address remote)
