-- ===== src/Key/RoundTrip.antt =====
-- The text of an Edge key is read back.
use portainer_agent.Base.{
  ◌<◌, ◌==◌, ◌≡◌, refl, false, inr, [], ◌∷◌, ◌++◌, Str, arith, Lacks, IsInt64, atoi-print_int,
  print_int, print_int-All, split_on, split_on-last, split_on-append,
}
use portainer_agent.Base64.RoundTrip.{IsBytes, decode-encode}
use portainer_agent.Key.{
  EdgeKey, key_info, encode_key, key_of, parse_fields, parse_decoded, parse_edge_key,
}

-- The fields of a key are bytes, without the separator, and its identifier is an `int`.
pub record IsKey (k : EdgeKey) : Type 0 where
  pub url : IsBytes k.portainer_instance_url × Lacks b'|' k.portainer_instance_url
  pub addr : IsBytes k.tunnel_server_addr × Lacks b'|' k.tunnel_server_addr
  pub fingerprint : IsBytes k.tunnel_server_fingerprint × Lacks b'|' k.tunnel_server_fingerprint
  pub id : IsInt64 k.endpoint_id

append-IsBytes : (s t : Str) → IsBytes s → IsBytes t → IsBytes (s ++ b'|' ∷ t)
append-IsBytes [] t h k = (omega arith, k)
append-IsBytes (c ∷ s) t h k = (h.0, append-IsBytes s t h.1 k)

key_info-IsBytes : (k : EdgeKey) → IsKey k → IsBytes (key_info k)
unfolding key_info
key_info-IsBytes k h = append-IsBytes _ _ h.url.0 (
    append-IsBytes _ _ h.addr.0 (
      append-IsBytes _ _ h.fingerprint.0
        (print_int-All (λ c. c < 256) (λ n d. omega arith) (omega arith) k.endpoint_id)))

print_int-Lacks : (k : EdgeKey) → Lacks b'|' (print_int k.endpoint_id)
print_int-Lacks k =
    print_int-All (λ c. (c == b'|') ≡ false) (λ n d. ground arith) refl k.endpoint_id

split_on-key_info :
    (k : EdgeKey)
    → IsKey k
    → split_on b'|' (key_info k)
      ≡ k.portainer_instance_url
        ∷ k.tunnel_server_addr
        ∷ k.tunnel_server_fingerprint
        ∷ print_int k.endpoint_id
        ∷ []
unfolding key_info
split_on-key_info k h = rw (
  split_on-append b'|' k.portainer_instance_url _ h.url.1,
  split_on-append b'|' k.tunnel_server_addr _ h.addr.1,
  split_on-append b'|' k.tunnel_server_fingerprint _ h.fingerprint.1,
  split_on-last b'|' (print_int k.endpoint_id) (print_int-Lacks k),
)

-- A key whose fields are bytes without the separator, and whose identifier is an integer of 64
-- bits, is read back from its text.
pub parse_edge_key-encode_key : (k : EdgeKey) → IsKey k → parse_edge_key (encode_key k) ≡ inr k
unfolding parse_edge_key encode_key parse_decoded parse_fields key_of
parse_edge_key-encode_key k h = rw (
  decode-encode (key_info k) (key_info-IsBytes k h),
  split_on-key_info k h,
  atoi-print_int k.endpoint_id h.id,
)
