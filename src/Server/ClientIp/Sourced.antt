-- ===== src/Server/ClientIp/Sourced.antt =====
-- Where the address that clientIP of throttle.go returns comes from.
use secret_git.Prelude.{Text, ◌≡◌, true, false, some, [], ◌==◌, nat_eq, text_eq}
use secret_git.Split.{trim_space}
use secret_git.Server.ClientIp.{
  Netip, ProxyConfig, last_part, remote_host, parse_ip_loose, is_trusted,
}

module _ {A P : Type 0} (net : Netip A P) (cfg : ProxyConfig P) (remote_addr : Text)
    (header : Text → Text) where
  -- The connection's own host, or the last token of the configured header where the connection
  -- comes from a trusted proxy.
  pub data IsSourced : Text → Type 0 where
    from_connection : IsSourced (remote_host net remote_addr)
    from_proxy :
        {ip : Text}
        → (cfg.client_ip_header == []) ≡ false
        → is_trusted net (remote_host net remote_addr) cfg.trusted_proxy_cidrs ≡ true
        → parse_ip_loose net (trim_space (last_part [] (header cfg.client_ip_header))) ≡ some ip
        → IsSourced ip
