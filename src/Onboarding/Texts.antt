-- ===== src/Onboarding/Texts.antt =====
-- services/onboarding_service.py: quoting, names and addresses of the texts that the service writes.
pub mod Quoting
use Prim.Native.Char.{code}
use mikrotik.Prelude.{
  ℕ, String, Bool, true, false, not, ◌&&◌, ◌||◌, List, [], ◌∷◌, join, truthy, str_eq, ◌==◌,
  if◌then◌else◌, before_dash,
}
use mikrotik.Models.{Router}
use mikrotik.World.{Env, Url}
use mikrotik.Settings.{strip, rstrip_slash}

-- `"".join(parts)`
abbrev pub texts : List String → String
texts [] = ""
texts (part ∷ parts) = join part (texts parts)

-- `s.replace(c, new)` of one character
unfoldable pub replace_char : ℕ → String → String → String
replace_char old new String.[] = ""
replace_char old new (String.◌∷◌ c s) =
    let rest = replace_char old new s in if code c == old then join new rest else String.◌∷◌ c rest

unfoldable pub ros_quote : String → String
unfolding replace_char
ros_quote value =
    replace_char b'$' "\\$" (replace_char b'"' "\\\"" (replace_char b'\\' "\\\\" value))

unfoldable pub api_username : String → String
api_username router_uid = join "uzanet-" (before_dash router_uid)

unfoldable pub l2tp_username : String → String
l2tp_username router_uid = join "router-" router_uid

-- an HTTPS origin and nothing behind it
unfoldable pub is_origin : Url → Bool
is_origin url =
    str_eq url.scheme "https"
    && truthy url.hostname
    && not (truthy url.username)
    && not (truthy url.password)
    && not (truthy url.query)
    && not (truthy url.fragment)
    && (str_eq url.path "" || str_eq url.path "/")

unfoldable pub first_origin : Env → List String → String
unfolding is_origin
first_origin env [] = ""
first_origin env (candidate ∷ candidates) =
    if is_origin (env.split_url candidate)
    then rstrip_slash candidate
    else first_origin env candidates

unfoldable pub portal_public_origin : Env → String
unfolding first_origin
portal_public_origin env =
    let explicit = rstrip_slash (strip env.portal_public_url) in
    first_origin env (if truthy explicit then explicit ∷ [] else env.settings.cors_origins)

unfoldable pub portal_redirect_url : Env → Router → String → String
portal_redirect_url env router isp_identifier =
    let origin = portal_public_origin env in
    if truthy origin
    then texts (
        origin
        ∷ "/portal/"
        ∷ env.url_quote isp_identifier
        ∷ "/"
        ∷ env.url_quote router.portal_slug
        ∷ "?link-login-only=$(link-login-only-esc)&link-orig=$(link-orig-esc)&mac=$(mac-esc)"
        ∷ "&ip=$(ip-esc)"
        ∷ [])
    else ""

-- `PORTAL_TEMPLATE_VERSION`
abbrev pub portal_template_version : ℕ
portal_template_version = 1

-- `MANAGED_COMMENT`
abbrev pub managed_comment : String
managed_comment = "uzanet-managed"

unfoldable pub fetch_compatible : String → String → String → String
unfolding ros_quote
fetch_compatible command arguments variable = texts (
    ":local " ∷ variable ∷ " [:parse \"" ∷ ros_quote command ∷ "\"]; $" ∷ variable ∷ arguments ∷ [])

unfoldable pub tls_preflight_command : Env → String
tls_preflight_command env = texts (
    "/tool fetch url=\"" ∷ env.settings.api_public_url
    ∷ "/health/live\" check-certificate=yes keep-result=no" ∷ [])

unfoldable pub install_command : String → String → String → String
install_command router_uid url token =
    let filename = ros_quote (texts ("uzanet-" ∷ router_uid ∷ ".rsc" ∷ [])) in
    let command = ros_quote (
      texts (
        "/tool fetch url=\""
        ∷ ros_quote url
        ∷ "\" http-header-field=\"X-Onboarding-Token: "
        ∷ token
        ∷ "\" check-certificate=yes dst-path=$path"
        ∷ [])) in
    texts (
      "{:local p \"" ∷ filename
      ∷ "\";:do {/file remove [/file find where name=$p]} on-error={};:local c \"" ∷ command
      ∷ "\";:local f [:parse $c];:local e false;:do {$f path=$p} on-error={:set e true};:i"
      ∷ "f ($e) do={:error \"Download failed; check connection, clock and CA trust\"};:do {"
      ∷ "/import file-name=$p} on-error={:set e true};:if ($e) do={:error \"Setup failed; "
      ∷ "downloaded RSC was kept for retry\"};:do {/file remove [/file find where name=$p]"
      ∷ "} on-error={}}" ∷ [])
