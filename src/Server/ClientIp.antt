-- ===== src/Server/ClientIp.antt =====
-- internal/server/throttle.go: the address that a login is counted under. net/netip and
-- net.SplitHostPort are a parameter.
pub mod Sourced
use secret_git.Prelude.{
  Text, ℕ, Bool, true, false, ◌||◌, not, Option, none, some, List, [], ◌∷◌, ◌++◌, if◌then◌else◌,
  ◌==◌, nat_eq, text_eq,
}
use secret_git.Split.{trim_space}

pub record Netip (A P : Type 0) : Type 0 where
  -- net.SplitHostPort: the host
  pub split_host_port : Text → Option Text
  -- netip: ParseAddr, Addr.Unmap, Addr.String, Prefix.Contains
  pub parse_addr : Text → Option A
  pub unmap : A → A
  pub addr_text : A → Text
  pub contains : P → A → Bool

-- The part of Config that clientIP reads.
pub record ProxyConfig (P : Type 0) : Type 0 where
  pub client_ip_header : Text
  pub trusted_proxy_cidrs : List P

-- The text behind the last comma; `part` is what stands in front, since the comma before.
unfoldable pub last_part : Text → Text → Text
last_part part [] = part
last_part part (c ∷ cs) =
    let fresh = last_part [] cs in
    let more = last_part (part ++ (c ∷ [])) cs in if c == b',' then fresh else more

abbrev is_empty : {P : Type 0} → List P → Bool
is_empty [] = true
is_empty (c ∷ cs) = false

-- The first test of clientIP.
abbrev pub is_unset : {P : Type 0} → ProxyConfig P → Bool
is_unset cfg = cfg.client_ip_header == [] || is_empty cfg.trusted_proxy_cidrs

module _ {A P : Type 0} (net : Netip A P) where
  unfoldable pub remote_host : Text → Text
  remote_host remote_addr = elim (net.split_host_port remote_addr) [
    | none ↦ remote_addr
    | some host ↦ host
  ]

  -- The second try of parseIPLoose, without the port.
  unfoldable pub parse_host : Text → Option Text
  unfolding remote_host
  parse_host s = if remote_host s == s then none else elim (net.parse_addr (remote_host s)) [
    | none ↦ none
    | some a ↦ some (net.addr_text (net.unmap a))
  ]

  unfoldable pub parse_ip_loose : Text → Option Text
  unfolding parse_host
  parse_ip_loose s = elim (net.parse_addr s) [
    | some a ↦ some (net.addr_text (net.unmap a))
    | none ↦ parse_host s
  ]

  unfoldable pub is_in_any : A → List P → Bool
  is_in_any a [] = false
  is_in_any a (c ∷ cs) = net.contains c a || is_in_any a cs

  unfoldable pub addr_in_any : A → List P → Bool
  unfolding is_in_any
  addr_in_any a cidrs = is_in_any (net.unmap a) cidrs

  -- The connection comes from a trusted proxy.
  unfoldable pub is_trusted : Text → List P → Bool
  unfolding addr_in_any
  is_trusted remote cidrs = elim (net.parse_addr remote) [
    | none ↦ false
    | some a ↦ addr_in_any a cidrs
  ]

  -- What clientIP takes from the header, of a trusted proxy.
  unfoldable pub forwarded : Text → Text → Text
  unfolding parse_ip_loose last_part trim_space
  forwarded remote hv =
      if hv == []
      then remote
      else elim (parse_ip_loose (trim_space (last_part [] hv))) [ some ip ↦ ip | none ↦ remote ]

  -- clientIP, of a request from an address and with headers.
  unfoldable pub client_ip : ProxyConfig P → Text → (Text → Text) → Text
  unfolding remote_host is_trusted forwarded
  client_ip cfg remote_addr header =
      if is_unset cfg
      then remote_host remote_addr
      else if is_trusted (remote_host remote_addr) cfg.trusted_proxy_cidrs
      then forwarded (remote_host remote_addr) (header cfg.client_ip_header)
      else remote_host remote_addr
