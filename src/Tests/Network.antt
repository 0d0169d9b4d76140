-- ===== src/Tests/Network.antt =====
-- A request that came over a proxy, with an address that the client made up in its headers.
use llama_rack.Base.{◌≡◌, refl, Bool, Option, none, some, List, [], ◌∷◌, if◌then◌else◌}
use llama_rack.Base.Text.{Text, codes, text_eq, to_lower_rune}
use llama_rack.Security.Outbound.Addresses.{Addr, ipv4}
use llama_rack.Security.Network.{Request, effective_remote_address}
use llama_rack.Security.Network.Remote.{effective_remote_address-last}

abbrev parse : Text → Option Addr
parse s =
    if text_eq s (codes "10.0.0.1")
    then some (ipv4 10)
    else if text_eq s (codes "9.9.9.9")
    then some (ipv4 9)
    else if text_eq s (codes "6.6.6.6")
    then some (ipv4 6)
    else none

abbrev no_prefix : Text → Option (Addr → Bool)
no_prefix s = none

abbrev proxied : Request
proxied = record {
  remote_addr = codes "10.0.0.1:5000";
  forwarded = [];
  x_forwarded_for = codes "6.6.6.6, 9.9.9.9";
  x_real_ip = codes "6.6.6.6";
}

effective_remote_address_example :
    effective_remote_address to_lower_rune parse no_prefix (some (codes "10.0.0.1")) proxied
    ≡ ipv4 9
unfolding effective_remote_address llama_rack.Base.Text.trim_space llama_rack.Base.Text.split_comma
    text_eq to_lower_rune
effective_remote_address_example =
    effective_remote_address-last to_lower_rune parse no_prefix (some (codes "10.0.0.1")) proxied
      (ipv4 6 ∷ []) (ipv4 10 ∷ []) (ipv4 9) refl refl (refl, tt)
