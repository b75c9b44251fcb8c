-- ===== src/Init/Network/Resolv.antt =====
-- The lines of /etc/resolv.conf.
use void_init.Base.{
  ◌≡◌, refl, ap, ◌∙◌, List, [], ◌∷◌, ◌++◌, map, append_assoc, Bytes, codes, All, All-append, arith,
}
use void_init.Text.Parts.{Lacks, split, join, split_at_sep}
use void_init.Managed.{user_config_marker}
use void_init.Init.Network.{resolv_conf, nameserver_lines}

abbrev pub nameserver_line : Bytes → Bytes
nameserver_line ns = codes "nameserver " ++ ns

-- The line with the search domains, if there is one at least.
abbrev pub search_lines : List Bytes → List Bytes
search_lines [] = []
search_lines (domain ∷ domains) = (codes "search " ++ join (domain ∷ domains) (codes " ")) ∷ []

nameserver-Lacks : Lacks b'\n' (codes "nameserver ")
unfolding codes
nameserver-Lacks = ground arith

search-Lacks : Lacks b'\n' (codes "search ")
unfolding codes
search-Lacks = ground arith

space-Lacks : Lacks b'\n' (codes " ")
unfolding codes
space-Lacks = ground arith

join-Lacks :
    (parts : List Bytes) (sep : Bytes)
    → Lacks b'\n' sep
    → All (Lacks b'\n') parts
    → Lacks b'\n' (join parts sep)
unfolding join
join-Lacks [] sep hs h = tt
join-Lacks (part ∷ []) sep hs (h, _) = h
join-Lacks (part ∷ more ∷ parts) sep hs (h, rest) =
    All-append _ part (sep ++ join (more ∷ parts) sep) h
      (All-append _ sep (join (more ∷ parts) sep) hs (join-Lacks (more ∷ parts) sep hs rest))

marker-split : split (user_config_marker ++ codes "\n") b'\n' ≡ user_config_marker ∷ [] ∷ []
unfolding split codes
marker-split = refl

-- A line and what follows it.
line_first :
    (line rest : Bytes)
    → Lacks b'\n' line
    → split (line ++ codes "\n" ++ rest) b'\n' ≡ line ∷ split rest b'\n'
unfolding codes
line_first line rest h =
    ap (λ s. split s b'\n') (append_assoc line (b'\n' ∷ []) rest) ∙ split_at_sep line rest b'\n' h

nameserver_lines-split :
    (nameservers : List Bytes) (rest : Bytes)
    → All (Lacks b'\n') nameservers
    → split (nameserver_lines nameservers ++ rest) b'\n'
      ≡ map nameserver_line nameservers ++ split rest b'\n'
nameserver_lines-split [] rest h = refl
nameserver_lines-split (ns ∷ nameservers) rest (h, hs) =
    ap (λ s. split s b'\n')
      (append_assoc (codes "nameserver " ++ ns ++ codes "\n") (nameserver_lines nameservers) rest)
    ∙ line_first (nameserver_line ns) (nameserver_lines nameservers ++ rest)
        (All-append _ (codes "nameserver ") ns nameserver-Lacks h)
    ∙ ap (◌∷◌ (nameserver_line ns)) (nameserver_lines-split nameservers rest hs)

body-split :
    (nameservers : List Bytes)
    → All (Lacks b'\n') nameservers
    → split (nameserver_lines nameservers ++ (user_config_marker ++ codes "\n")) b'\n'
      ≡ map nameserver_line nameservers ++ (user_config_marker ∷ [] ∷ [])
body-split nameservers h =
    nameserver_lines-split nameservers (user_config_marker ++ codes "\n") h
    ∙ ap (λ l. map nameserver_line nameservers ++ l) marker-split

-- If no value has a newline, the lines of the file are the search domains, if there are any, each
-- name server in its order, and the marker.
pub resolv_conf-split :
    (nameservers search : List Bytes)
    → All (Lacks b'\n') nameservers
    → All (Lacks b'\n') search
    → split (resolv_conf nameservers search) b'\n'
      ≡ search_lines search ++ (map nameserver_line nameservers ++ (user_config_marker ∷ [] ∷ []))
unfolding resolv_conf
resolv_conf-split nameservers [] h hs = body-split nameservers h
resolv_conf-split nameservers (domain ∷ domains) h hs =
    let line = codes "search " ++ join (domain ∷ domains) (codes " ") in
    line_first line (nameserver_lines nameservers ++ (user_config_marker ++ codes "\n")) (
      All-append _ (codes "search ") (join (domain ∷ domains) (codes " ")) search-Lacks
        (join-Lacks (domain ∷ domains) (codes " ") space-Lacks hs))
    ∙ ap (λ l. line ∷ l) (body-split nameservers h)
