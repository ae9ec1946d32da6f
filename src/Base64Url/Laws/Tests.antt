-- ===== src/Base64Url/Laws/Tests.antt =====
-- Link codes and token payloads.
use hwfa.Common.{◌≡◌, refl}
use hwfa.Base64Url.{replace_all, strip_padding, to_url_safe}

url_safe_test : to_url_safe "a+/Zs+==" ≡ "a-_Zs-"
unfolding to_url_safe strip_padding replace_all
url_safe_test = refl
