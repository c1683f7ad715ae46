-- ===== src/Onboarding/Script.antt =====
-- services/onboarding_service.py: the RouterOS script of an onboarding.
use mikrotik.Prelude.{
  String, Bool, ◌&&◌, Option, none, some, [], ◌∷◌, str_eq, truthy, if◌then◌else◌, before_dash,
}
use mikrotik.Models.{Router}
use mikrotik.World.{Env}
use mikrotik.Onboarding.Texts.{
  texts, ros_quote, l2tp_username, portal_redirect_url, managed_comment, fetch_compatible,
}
use mikrotik.Onboarding.Page.{portal_redirect_html}

-- the dict `values`, each of them quoted
pub record ScriptValues : Type 0 where
  pub backup : String
  pub comment : String
  pub expected_ip : String
  pub host : String
  pub cidr : String
  pub api_user : String
  pub api_password : String
  pub l2tp_user : String
  pub l2tp_password : String
  pub claim_url : String
  pub token : String
  pub portal_html : String

-- the page, if there is an operator, an open portal and an address for it
unfoldable pub portal_page : Env → Router → Option String → String
portal_page env router none = ""
portal_page env router (some isp_identifier) =
    let url = portal_redirect_url env router isp_identifier in
    if truthy isp_identifier && router.portal_enabled && truthy url
    then portal_redirect_html url
    else ""

unfoldable pub script_values :
    Env → Router → String → String → String → Option String → ScriptValues
unfolding portal_page
script_values env router claim_token api_password l2tp_password isp_identifier = record {
  backup = ros_quote (texts ("uzanet-pre-onboard-" ∷ before_dash router.uid ∷ []));
  comment = managed_comment;
  expected_ip = ros_quote (if str_eq router.ip_address "0.0.0.0" then "" else router.ip_address);
  host = ros_quote env.settings.router_control_host;
  cidr = ros_quote env.settings.router_control_cidr;
  api_user = ros_quote router.username;
  api_password = ros_quote api_password;
  l2tp_user = ros_quote (l2tp_username router.uid);
  l2tp_password = ros_quote l2tp_password;
  claim_url =
      ros_quote (texts (env.settings.api_public_url ∷ "/api/v1/router-onboarding/claim" ∷ []));
  token = ros_quote claim_token;
  portal_html = ros_quote (portal_page env router isp_identifier);
}

unfoldable pub claim_command : ScriptValues → String
claim_command v =
    fetch_compatible
      (texts (
        "/tool fetch url=\"" ∷ v.claim_url
        ∷ "\" check-certificate=yes http-method=post http-header-field=\"Content-Type: application/json\" "
        ∷ "http-data=$body keep-result=no" ∷ []))
      " body=$claimBody" "uzanetFetch"

-- `hotspot_block`
unfoldable pub hotspot_part : ScriptValues → String
hotspot_part v =
    if truthy v.portal_html
    then texts (
        "\n" ∷ "# Preserve the active HotSpot login page once, then replace only login.html with\n"
        ∷ "# a small ISP-qualified redirect. This avoids /file copy and other RouterOS 7-only\n"
        ∷ "# file operations while leaving all other HotSpot assets untouched.\n"
        ∷ ":local portalSynced false\n"
        ∷ ":local hotspotServers [/ip hotspot find where disabled=no]\n"
        ∷ ":if ([:len $hotspotServers] > 0) do={\n"
        ∷ "  :foreach hotspotId in=$hotspotServers do={\n"
        ∷ "    :local profileName [/ip hotspot get $hotspotId profile]\n"
        ∷ "    :local profileId [/ip hotspot profile find where name=$profileName]\n"
        ∷ "    :if ([:len $profileId] = 1) do={\n"
        ∷ "      :local baseDir [/ip hotspot profile get $profileId html-directory]\n"
        ∷ "      :if ([:len $baseDir] = 0) do={ :set baseDir \"hotspot\" }\n"
        ∷ "      :local sourceDir $baseDir\n" ∷ "      :local overrideDir \"\"\n"
        ∷ "      :do { :set overrideDir [/ip hotspot profile get $profileId html-directory-"
        ∷ "override] } on-error={}\n"
        ∷ "      :if ([:len $overrideDir] > 0) do={ :set sourceDir $overrideDir }\n"
        ∷ "      :local loginPath ($sourceDir . \"/login.html\")\n"
        ∷ "      :local loginId [/file find where name=$loginPath]\n"
        ∷ "      :if ([:len $loginId] = 1) do={\n"
        ∷ "        :local backupBase ($sourceDir . \"/login-pre-uzanet\")\n"
        ∷ "        :local backupPath ($backupBase . \".txt\")\n"
        ∷ "        :local backupReady true\n"
        ∷ "        :if ([:len [/file find where name=$backupPath]] = 0) do={\n"
        ∷ "          :local currentLogin [/file get $loginId contents]\n"
        ∷ "          :do { /file print file=$backupBase } on-error={ :set backupReady false }\n"
        ∷ "          :delay 1s\n"
        ∷ "          :local backupId [/file find where name=$backupPath]\n"
        ∷ "          :if ([:len $backupId] = 1) do={\n"
        ∷ "            :do { /file set $backupId contents=$currentLogin } on-error={ :set b"
        ∷ "ackupReady false }\n" ∷ "          } else={ :set backupReady false }\n" ∷ "        }\n"
        ∷ "        :if ($backupReady) do={\n" ∷ "          :do { /file set $loginId contents=\""
        ∷ v.portal_html ∷ "\" } on-error={ :set backupReady false }\n" ∷ "        }\n"
        ∷ "        :if ($backupReady) do={ :set portalSynced true }\n" ∷ "      }\n" ∷ "    }\n"
        ∷ "  }\n"
        ∷ "  :if (!$portalSynced) do={ :log warning \"Uzanet portal redirect was not changed"
        ∷ "; existing HotSpot login remains active\" }\n" ∷ "}\n" ∷ [])
    else ""

unfoldable pub script_text : ScriptValues → String → String → String → String
script_text v replace hotspot_block claim_fetch = texts (
    "# Uzanet managed onboarding — scoped token, expires automatically\n"
    ∷ "# This script preserves WAN/default routes and aborts on reserved-name conflicts.\n"
    ∷ ":local managedComment \"" ∷ v.comment ∷ "\"\n" ∷ ":local tunnelName \"uzanet-control\"\n"
    ∷ ":local groupName \"uzanet-api\"\n" ∷ ":local apiUser \"" ∷ v.api_user ∷ "\"\n"
    ∷ ":local replaceTunnel " ∷ replace ∷ "\n" ∷ "\n" ∷ ":if ([:len [/file find where name=\""
    ∷ v.backup ∷ ".backup\"]] = 0) do={\n" ∷ "  /system backup save name=\"" ∷ v.backup ∷ "\"\n"
    ∷ "}\n" ∷ "\n" ∷ ":local existingTunnel [/interface l2tp-client find where name=$tunnelName]\n"
    ∷ ":if ([:len $existingTunnel] > 0) do={\n"
    ∷ "  :if ([/interface l2tp-client get $existingTunnel comment] != $managedComment) do={\n"
    ∷ "    :error \"Uzanet onboarding stopped: conflicting l2tp-client named uzanet-cont"
    ∷ "rol\"\n" ∷ "  }\n" ∷ "  :if ([/interface l2tp-client get $existingTunnel user] != \""
    ∷ v.l2tp_user ∷ "\") do={\n"
    ∷ "    :if (!$replaceTunnel) do={ :error \"Existing Uzanet tunnel belongs to another"
    ∷ " router record. Enable replacement explicitly or use that record.\" }\n"
    ∷ "    /interface l2tp-client disable $existingTunnel\n" ∷ "  }\n"
    ∷ "  /interface l2tp-client set $existingTunnel connect-to=\"" ∷ v.host ∷ "\" user=\""
    ∷ v.l2tp_user ∷ "\" password=\"" ∷ v.l2tp_password
    ∷ "\" profile=default allow=chap use-ipsec=no add-default-route=no use-peer-dns=no d"
    ∷ "isabled=no\n" ∷ "} else={\n"
    ∷ "  /interface l2tp-client add name=$tunnelName comment=$managedComment connect-to=\"" ∷ v.host
    ∷ "\" user=\"" ∷ v.l2tp_user ∷ "\" password=\"" ∷ v.l2tp_password
    ∷ "\" profile=default allow=chap use-ipsec=no add-default-route=no use-peer-dns=no d"
    ∷ "isabled=no\n" ∷ "}\n" ∷ "\n"
    ∷ ":local existingGroup [/user group find where name=$groupName]\n"
    ∷ ":if ([:len $existingGroup] = 0) do={\n"
    ∷ "  /user group add name=$groupName policy=read,write,test,api\n" ∷ "}\n" ∷ "\n"
    ∷ ":local existingUser [/user find where name=$apiUser]\n"
    ∷ ":if ([:len $existingUser] > 0) do={\n"
    ∷ "  :if ([/user get $existingUser comment] != $managedComment) do={\n"
    ∷ "    :error \"Uzanet onboarding stopped: conflicting RouterOS user\"\n" ∷ "  }\n"
    ∷ "  /user set $existingUser group=$groupName password=\"" ∷ v.api_password ∷ "\" address=\""
    ∷ v.cidr ∷ "\" disabled=no\n" ∷ "} else={\n"
    ∷ "  /user add name=$apiUser group=$groupName password=\"" ∷ v.api_password ∷ "\" address=\""
    ∷ v.cidr ∷ "\" comment=$managedComment disabled=no\n" ∷ "}\n" ∷ "\n"
    ∷ ":if ([/ip service get api disabled]) do={ /ip service enable api }\n" ∷ hotspot_block ∷ "\n"
    ∷ ":local tunnelAddress \"\"\n" ∷ ":for attempt from=1 to=12 do={\n"
    ∷ "  :if ([:len $tunnelAddress] = 0) do={\n"
    ∷ "    :local addrId [/ip address find where interface=$tunnelName]\n"
    ∷ "    :if ([:len $addrId] = 1) do={\n"
    ∷ "      :local candidate [/ip address get $addrId address]\n"
    ∷ "      :local candidateIP [:pick $candidate 0 [:find $candidate \"/\"]]\n" ∷ "      :if ((\""
    ∷ v.expected_ip ∷ "\" = \"\") || ($candidateIP = \"" ∷ v.expected_ip
    ∷ "\")) do={ :set tunnelAddress $candidate }\n" ∷ "    }\n"
    ∷ "    :if ([:len $tunnelAddress] = 0) do={ :delay 5s }\n" ∷ "  }\n" ∷ "}\n"
    ∷ ":if ([:len $tunnelAddress] = 0) do={ :error \"Uzanet tunnel did not receive an ad"
    ∷ "dress\" }\n" ∷ "\n" ∷ ":local rosVersion [/system resource get version]\n"
    ∷ ":local claimBody (\"{\\\"token\\\":\\\"" ∷ v.token
    ∷ "\\\",\\\"tunnel_ip\\\":\\\"\" . $tunnelAddress . \"\\\",\\\"routeros_version\\\""
    ∷ ":\\\"\" . $rosVersion . \"\\\"}\")\n" ∷ claim_fetch ∷ "\n"
    ∷ ":put \"Uzanet registration accepted. Check connection status in the portal.\"\n" ∷ [])

unfoldable pub build_script :
    Env → Router → String → String → String → Bool → Option String → String
unfolding script_values claim_command hotspot_part script_text
build_script env router claim_token api_password l2tp_password replace_managed_tunnel
      isp_identifier =
    let v = script_values env router claim_token api_password l2tp_password isp_identifier in
    script_text v (if replace_managed_tunnel then "true" else "false") (hotspot_part v)
      (claim_command v)
