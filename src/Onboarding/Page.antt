-- ===== src/Onboarding/Page.antt =====
-- services/onboarding_service.py: the page that the login of a HotSpot is replaced by.
use mikrotik.Prelude.{String, [], ◌∷◌, show_number}
use mikrotik.Onboarding.Texts.{texts, replace_char, portal_template_version}

unfoldable pub portal_redirect_html : String → String
unfolding replace_char
portal_redirect_html redirect_url =
    let url = replace_char b'&' "&amp;" redirect_url in
    texts (
      "<!doctype html><html lang=\"en\"><head><meta charset=\"utf-8\"><meta name=\"viewp"
      ∷ "ort\" content=\"width=device-width,initial-scale=1\"><meta http-equiv=\"cache-contro"
      ∷ "l\" content=\"no-store\"><meta name=\"uzanet-managed-portal\" content=\""
      ∷ show_number portal_template_version
      ∷ "\"><meta http-equiv=\"refresh\" content=\"0;url="
      ∷ url
      ∷ "\"><title>Connecting to Uzanet</title><style>*{box-sizing:border-box}body{margin:"
      ∷ "0;min-height:100vh;display:grid;place-items:center;padding:24px;background:linea"
      ∷ "r-gradient(145deg,#eef5ff,#f8fbff 55%,#edf9fb);color:#0b1c30;font-family:Arial,s"
      ∷ "ans-serif}.card{width:min(100%,380px);padding:36px 28px;border:1px solid #dce9ff"
      ∷ ";border-radius:24px;background:rgba(255,255,255,.96);box-shadow:0 24px 64px rgba"
      ∷ "(15,42,94,.14);text-align:center}.brand{font-size:14px;font-weight:700;letter-sp"
      ∷ "acing:.16em;color:#004cca;text-transform:uppercase}.signal{position:relative;wid"
      ∷ "th:112px;height:96px;margin:22px auto 12px}.signal span{position:absolute;left:5"
      ∷ "0%;bottom:16px;border:6px solid #1677ff;border-color:#1677ff transparent transpa"
      ∷ "rent transparent;border-radius:50%;transform:translateX(-50%) rotate(45deg);anim"
      ∷ "ation:pulse 1.6s ease-in-out infinite}.signal span:nth-child(1){width:86px;heigh"
      ∷ "t:86px}.signal span:nth-child(2){width:58px;height:58px;animation-delay:.16s}.si"
      ∷ "gnal span:nth-child(3){width:30px;height:30px;animation-delay:.32s}.signal b{pos"
      ∷ "ition:absolute;left:50%;bottom:9px;width:12px;height:12px;border-radius:50%;back"
      ∷ "ground:#004cca;transform:translateX(-50%);box-shadow:0 0 0 8px #e5eeff}h1{margin"
      ∷ ":0;font-size:24px}p{margin:10px 0 24px;color:#56647a;line-height:1.5}.button{dis"
      ∷ "play:block;width:100%;padding:14px 18px;border-radius:12px;background:#005ce6;co"
      ∷ "lor:#fff;text-decoration:none;font-weight:700;box-shadow:0 10px 24px rgba(0,76,2"
      ∷ "02,.22)}.hint{margin:14px 0 0;font-size:12px;color:#8490a3}@keyframes pulse{0%,1"
      ∷ "00%{opacity:.3;transform:translateX(-50%) rotate(45deg) scale(.92)}50%{opacity:1"
      ∷ ";transform:translateX(-50%) rotate(45deg) scale(1)}}@media(prefers-reduced-motio"
      ∷ "n:reduce){.signal span{animation:none}}</style></head><body><main class=\"card\" r"
      ∷ "ole=\"status\" aria-live=\"polite\"><div class=\"brand\">Uzanet Wi-Fi</div><div cl"
      ∷ "ass=\"signal\" aria-hidden=\"true\"><span></span><span></span><span></span><b></b></"
      ∷ "div><h1>Opening your internet portal</h1><p>Hold on while we load the available "
      ∷ "packages.</p><a class=\"button\" href=\""
      ∷ url
      ∷ "\">Continue manually</a><p class=\"hint\">Use the button if the portal does not ope"
      ∷ "n automatically.</p></main></body></html>"
      ∷ [])
