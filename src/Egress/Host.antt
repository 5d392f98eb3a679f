-- ===== src/Egress/Host.antt =====
-- kahyad/internal/egress/host.go: the one spelling of a host, and the private networks.
use kahya.Base.{
  ℕ, ◌/◌, Bool, false, ◌&&◌, ◌||◌, Option, none, some, List, [], ◌∷◌, eqb, if◌then◌else◌,
}
use kahya.Base.Text.{Text, text_eq}

-- the bytes of an address, in the form that IP.To4 gives where there is one
pub data Ip : Type 0 where
  v4 : ℕ → ℕ → ℕ → ℕ → Ip
  v6 : List ℕ → Ip

-- packages strings, net and idna, as far as they are called here
pub record Net : Type 0 where
  pub trim_space : Text → Text
  pub to_lower : Text → Text
  pub parse_ip : Text → Option Ip
  pub print_ip : Ip → Text
  pub to_unicode : Text → Option Text

abbrev pub bracket_open : ℕ
bracket_open = 91

abbrev pub bracket_close : ℕ
bracket_close = 93

abbrev pub full_stop : ℕ
full_stop = 46

unfoldable pub ends_with : ℕ → Text → Bool
ends_with c [] = false
ends_with c (d ∷ []) = eqb d c
ends_with c (d ∷ e ∷ s) = ends_with c (e ∷ s)

unfoldable pub without_last : Text → Text
without_last [] = []
without_last (d ∷ []) = []
without_last (d ∷ e ∷ s) = d ∷ without_last (e ∷ s)

unfoldable pub trim_suffix : ℕ → Text → Text
trim_suffix c s = if ends_with c s then without_last s else s

-- [::1] is ::1; a lone bracket has no second one to cut
unfoldable pub strip_brackets : Text → Text
strip_brackets [] = []
strip_brackets (c ∷ s) =
    if eqb c bracket_open && ends_with bracket_close s then without_last s else c ∷ s

abbrev pub or_else : Option Text → Text → Text
or_else none s = s
or_else (some t) s = t

module _ (net : Net) where
  abbrev pub canonical_name : Option Ip → Text → Text
  canonical_name (some ip) h = net.print_ip ip
  canonical_name none h = or_else (net.to_unicode h) h

  unfoldable pub canonicalize_trimmed : Text → Option Text
  canonicalize_trimmed [] = none
  canonicalize_trimmed (c ∷ s) =
      let h = trim_suffix full_stop (net.to_lower (strip_brackets (c ∷ s))) in
      some (canonical_name (net.parse_ip h) h)

  unfoldable pub canonicalize_host : Text → Option Text
  canonicalize_host raw = canonicalize_trimmed (net.trim_space raw)

abbrev pub first_is : (ℕ → Bool) → List ℕ → Bool
first_is p [] = false
first_is p (b ∷ bytes) = p b

abbrev pub second : List ℕ → List ℕ
second [] = []
second (b ∷ bytes) = bytes

unfoldable pub is_loopback : Ip → Bool
is_loopback (v4 a b c d) = eqb a 127
is_loopback (v6 bytes) =
    text_eq bytes (0 ∷ 0 ∷ 0 ∷ 0 ∷ 0 ∷ 0 ∷ 0 ∷ 0 ∷ 0 ∷ 0 ∷ 0 ∷ 0 ∷ 0 ∷ 0 ∷ 0 ∷ 1 ∷ [])

-- 169.254.0.0/16 and fe80::/10; 224.0.0.0/24 and ff02::/16 and the like
unfoldable pub is_link_local : Ip → Bool
is_link_local (v4 a b c d) = (eqb a 169 && eqb b 254) || (eqb a 224 && eqb b 0 && eqb c 0)
is_link_local (v6 bytes) =
    (first_is (λ b. eqb b 254) bytes && first_is (λ b. eqb (b / 64) 2) (second bytes))
    || (first_is (λ b. eqb b 255) bytes && first_is (λ b. eqb b 2) (second bytes))

-- 10.0.0.0/8, 172.16.0.0/12, 192.168.0.0/16 and fc00::/7
unfoldable pub in_private_cidrs : Ip → Bool
in_private_cidrs (v4 a b c d) =
    eqb a 10 || (eqb a 172 && eqb (b / 16) 1) || (eqb a 192 && eqb b 168)
in_private_cidrs (v6 bytes) = first_is (λ b. eqb (b / 2) 126) bytes

abbrev pub private_ip : Option Ip → Bool
private_ip none = false
private_ip (some ip) = is_loopback ip || is_link_local ip || in_private_cidrs ip

-- false where the host is no address
unfoldable pub is_private_or_link_local : Net → Text → Bool
is_private_or_link_local net host = private_ip (net.parse_ip host)
