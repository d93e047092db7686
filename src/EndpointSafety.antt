-- ===== src/EndpointSafety.antt =====
-- scripts/lib/endpoint-safety.mjs: the registered fragments of an endpoint, and their redaction. A
-- set is a list in the order of its insertions. What `URL` makes of an endpoint is a parameter.
mod Tests
use ppv.Base.{
  Bool, Option, none, some, List, [], ◌∷◌, ◌++◌, ◌==◌, list_eq, any, select, leb, ltb, length,
  if◌then◌else◌, nat_beq, ℕ, false, ◌&&◌, ◌||◌, not,
}
use ppv.Base.Text.{Text, codes}
use ppv.Base.Search.{includes, replace_all, trim, starts_with}

abbrev pub redaction : Text
redaction = codes "<redacted rpc endpoint>"

-- What the fields of a `URL` hold; `segments` is `pathname.split("/")`.
pub record Url : Type 0 where
  pub href : Text
  pub origin : Text
  pub host : Text
  pub hostname : Text
  pub username : Text
  pub password : Text
  pub search : Text
  pub parameters : List Text
  pub segments : List Text

-- `Set.prototype.add`
unfoldable pub add_fragment : List Text → Text → List Text
add_fragment fragments f = if any (λ g. g == f) fragments then fragments else fragments ++ f ∷ []

unfoldable pub add_fragments : List Text → List Text → List Text
unfolding add_fragment
add_fragments fragments [] = fragments
add_fragments fragments (f ∷ fs) = add_fragments (add_fragment fragments f) fs

-- `.sort((a, b) => b.length - a.length)`, which is stable.
insert_longest : Text → List Text → List Text
insert_longest f [] = f ∷ []
insert_longest f (g ∷ gs) =
    let rest = insert_longest f gs in if ltb (length f) (length g) then g ∷ rest else f ∷ g ∷ gs

unfoldable pub longest_first : List Text → List Text
unfolding insert_longest
longest_first [] = []
longest_first (f ∷ fs) = insert_longest f (longest_first fs)

-- `search.replace(/^\?/, "")`
unfoldable pub without_mark : Text → Text
without_mark [] = []
without_mark (c ∷ cs) = if nat_beq c 63 then cs else c ∷ cs

unfoldable pub when_given : Text → Text → List Text
when_given [] f = []
when_given (c ∷ cs) f = f ∷ []

abbrev pub is_long : Text → Bool
is_long t = leb 8 (length t)

unfoldable pub url_fragments : Text → Option Url → List Text
unfolding add_fragments without_mark when_given
url_fragments raw none = raw ∷ []
url_fragments raw (some url) = longest_first (
    select (λ f. leb 4 (length f))
      (add_fragments (raw ∷ []) (
        url.href
        ∷ url.origin
        ∷ url.host
        ∷ url.hostname
        ∷ (when_given url.username url.username
            ++ (when_given url.password url.password
                ++ (when_given url.search (without_mark url.search)
                    ++ (select is_long url.parameters ++ select is_long url.segments)))))))

unfoldable pub fragments_of : Text → Option Url → List Text
unfolding url_fragments
fragments_of [] url = []
fragments_of (c ∷ cs) url = url_fragments (c ∷ cs) url

unfoldable pub endpoint_fragments : (Text → Option Url) → Text → List Text
unfolding fragments_of
endpoint_fragments parse endpoint = let raw = trim endpoint in fragments_of raw (parse raw)

unfoldable pub register_sensitive_endpoint : (Text → Option Url) → List Text → Text → List Text
unfolding add_fragments endpoint_fragments
register_sensitive_endpoint parse sensitive endpoint =
    add_fragments sensitive (endpoint_fragments parse endpoint)

abbrev pub redact_each : List Text → Text → Text
redact_each [] out = out
redact_each ([] ∷ fs) out = redact_each fs out
redact_each ((c ∷ cs) ∷ fs) out =
    redact_each fs (if includes (c ∷ cs) out then replace_all (c ∷ cs) redaction out else out)

unfoldable pub redact : List Text → Text → Text
unfolding longest_first
redact sensitive text = redact_each (longest_first sensitive) text

abbrev is_scheme_letter : ℕ → Bool
is_scheme_letter c = leb 97 c && leb c 122 || leb 65 c && leb c 90

-- `[a-z0-9+.-]`, in either case.
abbrev is_scheme_part : ℕ → Bool
is_scheme_part c =
    is_scheme_letter c || (leb 48 c && leb c 57 || (nat_beq c 43 || (nat_beq c 46 || nat_beq c 45)))

-- `[a-z0-9+.-]*:\/\/`: no part of a scheme is a colon.
unfoldable pub scheme_ends : Text → Bool
scheme_ends [] = false
scheme_ends (c ∷ cs) =
    let rest = scheme_ends cs in
    if nat_beq c 58 then starts_with (codes "//") cs else is_scheme_part c && rest

unfoldable pub has_scheme : Text → Bool
unfolding scheme_ends
has_scheme [] = false
has_scheme (c ∷ cs) = is_scheme_letter c && scheme_ends cs

unfoldable pub carries_credential : Option Url → Bool
carries_credential none = false
carries_credential (some url) =
    (not (url.username == []) || not (url.password == []))
    || (not (url.search == []) || any (λ segment. leb 16 (length segment)) url.segments)

unfoldable pub looks_like_credential_url : (Text → Option Url) → Text → Bool
unfolding has_scheme carries_credential
looks_like_credential_url parse value = has_scheme value && carries_credential (parse value)
