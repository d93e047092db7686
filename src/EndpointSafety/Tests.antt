-- ===== src/EndpointSafety/Tests.antt =====
-- `looksLikeCredentialUrl` at an address with a key in its query, and at a public key.
use ppv.Base.{◌≡◌, refl, true, false, Option, some, [], ◌∷◌}
use ppv.Base.Text.{Text, codes}
use ppv.EndpointSafety.{Url, looks_like_credential_url}

abbrev with_key : Text → Option Url
with_key value = some (record {
  href = value;
  origin = codes "https://rpc.example";
  host = codes "rpc.example";
  hostname = codes "rpc.example";
  username = [];
  password = [];
  search = codes "?api-key=1";
  parameters = codes "1" ∷ [];
  segments = [] ∷ [] ∷ [];
})

has_a_query : looks_like_credential_url with_key (codes "https://rpc.example/?api-key=1") ≡ true
unfolding ppv.EndpointSafety.looks_like_credential_url ppv.Base.Search.starts_with
has_a_query = refl

is_no_url :
    looks_like_credential_url with_key (codes "9WzDXwBbmkg8ZTbNMqUxvQRAyrZzDsGYdLVL9zYtAWWM")
    ≡ false
unfolding ppv.EndpointSafety.looks_like_credential_url ppv.Base.Search.starts_with
is_no_url = refl
