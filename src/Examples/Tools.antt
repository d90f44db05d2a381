-- ===== src/Examples/Tools.antt =====
-- The network, the file system and the shell of a small host, with the theorems about the tools.
use picobot.Base.{
  Text, codes, Bool, true, false, [], ◌∷◌, none, some, ◌≡◌, refl, ◌⊎◌, inl, inr, ◌||◌, text_eq,
  arith, any, subst, is_empty,
}
use picobot.FilePath.{root_dir, normal}
use picobot.Kernel.Permission.{Host}
use picobot.Tools.Network.{Ipv4, v4, is_non_global_ipv4, is_private_ip}
use picobot.Tools.Network.Ranges.{IsIpv4, number, in_special_block, is_non_global_ipv4-blocks}
use picobot.Tools.Network.Fetch.{Net, ensure_allowed_url, read_response_bytes}
use picobot.Tools.Network.Guard.{
  is_ok, ensure_allowed_url-admits, accepted, concat, read_response_bytes-limit,
}
use picobot.Tools.Files.{PathBuf, FileSystem, Dirs, resolve_path, path_eq}
use picobot.Tools.Files.Jail.{IsCanonical, IsBelow, resolve_path-IsBelow}
use picobot.Tools.ShellPolicy.{denied, classify, matches, default}
use picobot.Tools.ShellPolicy.Classes.{classify-risk}

abbrev lan : Ipv4
lan = record { a = 172; b = 20; c = 1; d = 2 }

lan-IsIpv4 : IsIpv4 lan
lan-IsIpv4 = (omega arith, (omega arith, (omega arith, omega arith)))

is_non_global_ipv4-blocks_example : is_non_global_ipv4 lan ≡ in_special_block (number lan)
is_non_global_ipv4-blocks_example = is_non_global_ipv4-blocks lan lan-IsIpv4

-- One name, which resolves to a public address and to the one above.
abbrev net : Net
net = record {
  parse = λ url. inr (record {
    scheme = codes "https";
    host_str = some (codes "example.org");
    username = [];
    password = none;
    port_or_known_default = some 443;
  });
  lookup_host = λ host port. inr (v4 (record { a = 8; b = 8; c = 8; d = 8 }) ∷ v4 lan ∷ []);
  show = λ ip. codes "ip";
  show_u64 = λ n. codes "n";
}

ensure_allowed_url-admits_example :
    is_ok (ensure_allowed_url net (codes "https://example.org/") (codes "example.org")) ≡ false
unfolding is_private_ip is_non_global_ipv4 any is_empty
ensure_allowed_url-admits_example =
    ensure_allowed_url-admits net (codes "https://example.org/") (codes "example.org")

read_response_bytes-limit_example :
    accepted (
      read_response_bytes net
        (record { content_length = none; chunks = inr (1 ∷ 2 ∷ []) ∷ inr (3 ∷ []) ∷ [] })
        3
        (codes "response"))
    ≡ some (1 ∷ 2 ∷ 3 ∷ [])
unfolding concat
read_response_bytes-limit_example =
    read_response_bytes-limit net (codes "response") 3 (omega arith) none
      ((1 ∷ 2 ∷ []) ∷ (3 ∷ []) ∷ [])

abbrev jail : PathBuf
jail = root_dir ∷ normal (codes "jail") ∷ []

abbrev canonical_jail : Bool → Text ⊎ PathBuf
canonical_jail true = inr jail
canonical_jail false = inl (codes "not found")

-- Of the directories only the jail is there.
abbrev fs : FileSystem Unit
fs = record {
  home_dir = none;
  exists = λ w p. path_eq p jail;
  canonicalize = λ w p. canonical_jail (path_eq p jail);
  create_dir_all = λ w p. (inr tt, w);
  read_to_string = λ w p. inl (codes "not found");
  write = λ w p content. (inr tt, w);
}

canonical_jail-IsCanonical : (b : Bool) (q : PathBuf) → canonical_jail b ≡ inr q → IsCanonical q
canonical_jail-IsCanonical true q h = let e : jail ≡ q = cc in subst IsCanonical e (tt, tt)
canonical_jail-IsCanonical false q h = cc

abbrev dirs : Dirs
dirs = record { working_dir = codes "/jail/sub"; jail_root = some jail }

resolve_path-IsBelow_example :
    IsBelow fs tt
      (λ p q h. canonical_jail-IsCanonical (path_eq p jail) q h)
      jail
      (root_dir ∷ normal (codes "jail") ∷ normal (codes "new.txt") ∷ [])
unfolding resolve_path path_eq
resolve_path-IsBelow_example =
    resolve_path-IsBelow fs tt (λ p q h. canonical_jail-IsCanonical (path_eq p jail) q h) dirs jail
      jail (codes "../new.txt") (root_dir ∷ normal (codes "jail") ∷ normal (codes "new.txt") ∷ [])
      refl refl refl

-- A pattern is `*` or an exact text.
abbrev host : Host
host = record {
  glob = λ pattern. some (λ value. text_eq pattern (codes "*") || text_eq pattern value);
  home_dir = none;
}

classify-risk_example :
    (classify (default host) (codes "rm") (codes "-rf" ∷ codes "/" ∷ [])).risk ≡ denied
unfolding default any matches text_eq
classify-risk_example = classify-risk (default host) (codes "rm") (codes "-rf" ∷ codes "/" ∷ [])
