-- ===== src/Security/Ids/Laws.antt =====
-- The session version tells the parts apart that it is made of.
use mathlib.Core.List.{append-nil}
use proxy_control_plane.Base.{
  Text, List, [], ◌∷◌, ◌++◌, ◌≡◌, ap, sym, ◌∙◌, All, Lacks, split, split-append, split-Lacks, some,
  drop,
}
use proxy_control_plane.Security.RawUrl.{hex_encode, hex_decode}
use proxy_control_plane.Security.RawUrl.Laws.{IsBytes, hex_decode-encode}
use proxy_control_plane.Security.Ids.{session_input, auth_session_version}

split-session_input :
    (part : Text) (parts : List Text)
    → All (Lacks 0) (part ∷ parts)
    → split 0 (part ++ session_input parts) ≡ part ∷ parts
unfolding session_input
split-session_input part [] h = ap (split 0) (append-nil part) ∙ split-Lacks 0 part h.0
split-session_input part (next ∷ parts) h =
    split-append 0 part (next ++ session_input parts) h.0
    ∙ ap (λ ps. part ∷ ps) (split-session_input next parts h.1)

hex_encode_inj : (s t : Text) → IsBytes s → IsBytes t → hex_encode s ≡ hex_encode t → s ≡ t
hex_encode_inj s t hs ht e =
    let same : some s ≡ some t =
      sym (hex_decode-encode s hs) ∙ ap hex_decode e ∙ hex_decode-encode t ht in
    cc

-- Session versions under one key that agree are made of the same parts, where no part has a zero byte
-- and HMAC does not collide on the two inputs.
session_version_parts :
    (hmac : Text → Text → Text) (key p q : Text) (ps qs : List Text)
    → ((k d : Text) → IsBytes (hmac k d))
    → (hmac key (session_input (p ∷ ps)) ≡ hmac key (session_input (q ∷ qs))
        → session_input (p ∷ ps) ≡ session_input (q ∷ qs))
    → All (Lacks 0) (p ∷ ps)
    → All (Lacks 0) (q ∷ qs)
    → auth_session_version hmac key (p ∷ ps) ≡ auth_session_version hmac key (q ∷ qs)
    → p ∷ ps ≡ q ∷ qs
unfolding auth_session_version session_input
session_version_parts hmac key p q ps qs bytes distinct hp hq e =
    let inputs = distinct (hex_encode_inj _ _ (bytes key _) (bytes key _) e) in
    sym (split-session_input p ps hp)
    ∙ ap (λ s. split 0 (drop 1 s)) inputs
    ∙ split-session_input q qs hq
