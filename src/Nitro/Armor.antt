-- ===== src/Nitro/Armor.antt =====
-- crates/nitro-attestation/src/lib.rs, `pem_rfc7468::decode_vec`: the bytes between the lines of a PEM file.
use pzd.Base.{List, [], ◌∷◌, ◌++◌, ◌>>=◌, ◌>>◌, Bytes, codes, if◌then◌else◌}
use pzd.Base.Result.{Result, ok, ok_or, guard}
use pzd.Base.Text.{starts_with, lines, is_utf8}
use pzd.Nitro.Formats.{Formats}

-- The text of lines with a line feed behind each.
unfoldable pub unlines : List Bytes → Bytes
unlines [] = []
unlines (l ∷ ls) = l ++ (10 ∷ unlines ls)

-- The lines that do not begin with five dashes, joined.
unfoldable pub concat_inner : List Bytes → Bytes
unfolding starts_with
concat_inner [] = []
concat_inner (l ∷ ls) =
    let rest = concat_inner ls in if starts_with (codes "-----") l then rest else l ++ rest

module _ (F : Formats) where
  unfoldable pub decode_vec : Bytes → Result Bytes (Bytes × Bytes)
  unfolding is_utf8 lines concat_inner
  decode_vec pem = do
    guard (is_utf8 pem) (codes "not utf-8")
    der ← ok_or (F.base64_decode (concat_inner (lines pem))) (codes "base64 decode")
    ok (codes "CERTIFICATE", der)

-- The lines of `AWS_ROOT_PEM_COMMERCIAL` between its first and its last, and its text.
abbrev pub commercial_lines : List Bytes
commercial_lines =
    codes "MIICETCCAZagAwIBAgIRAPkxdWgbkK/hHUbMtOTn+FYwCgYIKoZIzj0EAwMwSTEL"
    ∷ codes "MAkGA1UEBhMCVVMxDzANBgNVBAoMBkFtYXpvbjEMMAoGA1UECwwDQVdTMRswGQYD"
    ∷ codes "VQQDDBJhd3Mubml0cm8tZW5jbGF2ZXMwHhcNMTkxMDI4MTMyODA1WhcNNDkxMDI4"
    ∷ codes "MTQyODA1WjBJMQswCQYDVQQGEwJVUzEPMA0GA1UECgwGQW1hem9uMQwwCgYDVQQL"
    ∷ codes "DANBV1MxGzAZBgNVBAMMEmF3cy5uaXRyby1lbmNsYXZlczB2MBAGByqGSM49AgEG"
    ∷ codes "BSuBBAAiA2IABPwCVOumCMHzaHDimtqQvkY4MpJzbolL//Zy2YlES1BR5TSksfbb"
    ∷ codes "48C8WBoyt7F2Bw7eEtaaP+ohG2bnUs990d0JX28TcPQXCEPZ3BABIeTPYwEoCWZE"
    ∷ codes "h8l5YoQwTcU/9KNCMEAwDwYDVR0TAQH/BAUwAwEB/zAdBgNVHQ4EFgQUkCW1DdkF"
    ∷ codes "R+eWw5b6cp3PmanfS5YwDgYDVR0PAQH/BAQDAgGGMAoGCCqGSM49BAMDA2kAMGYC"
    ∷ codes "MQCjfy+Rocm9Xue4YnwWmNJVA44fA0P5W2OpYow9OYCVRaEevL8uO1XYru5xtMPW"
    ∷ codes "rfMCMQCi85sWBbJwKKXdS6BptQFuZbT73o/gBh1qUxl/nNr12UO8Yfwr6wPLb+6N"
    ∷ codes "IwLz3/Y="
    ∷ []

unfoldable pub aws_root_pem_commercial : Bytes
unfolding unlines
aws_root_pem_commercial = unlines (
    codes "-----BEGIN CERTIFICATE-----" ∷ commercial_lines
    ++ (codes "-----END CERTIFICATE-----" ∷ []))

-- The lines of `AWS_ROOT_PEM_GOVCLOUD` between its first and its last, and its text.
abbrev pub govcloud_lines : List Bytes
govcloud_lines =
    codes "MIIB6jCCAW+gAwIBAgIQCMjm6BMzlEhKlTbcGr+EczAKBggqhkjOPQQDAzBJMQsw"
    ∷ codes "CQYDVQQGEwJVUzEPMA0GA1UECgwGQW1hem9uMQwwCgYDVQQLDANBV1MxGzAZBgNV"
    ∷ codes "BAMMEmF3cy5uaXRyby1lbmNsYXZlczAeFw0yMDA2MTAxOTI4NDNaFw00MDA2MTAy"
    ∷ codes "MDI4NDNaMEkxCzAJBgNVBAYTAlVTMQ8wDQYDVQQKDAZBbWF6b24xDDAKBgNVBAsM"
    ∷ codes "A0FXUzEbMBkGA1UEAwwSYXdzLm5pdHJvLWVuY2xhdmVzMHYwEAYHKoZIzj0CAQYF"
    ∷ codes "K4EEACIDYgAEsT0sEbXVU2cnAS4TJfV8Y0nA8sqU3IsZNwm6sXX6oQA9C9Jt7Tg5"
    ∷ codes "8s/pNkD3FuVL9pVZpJpgFB7C/B1eFwgGzKkA3kxN6BB3yJtT8r+rN6yqDcgGZBuM"
    ∷ codes "9aKHQGgPyhq2o0IwQDAPBgNVHRMBAf8EBTADAQH/MA4GA1UdDwEB/wQEAwIBhjAd"
    ∷ codes "BgNVHQ4EFgQUVxIuJWfp/Y3JzcoUKJWFc4qOyfowCgYIKoZIzj0EAwMDaQAwZgIx"
    ∷ codes "AILi9Rg6cFcLU3WtIThZ+l+0H6lE7gV1MR9wKEEPpJ2zXBcU0fGdgZHzVGM2vqgX"
    ∷ codes "4QIxALL1OQc8s8w50yYBKvK7nHFvrjpDxrJ7c2/Vc9wRSZBeWqZTBznSjyG6Asne"
    ∷ codes "TZBhsg=="
    ∷ []

unfoldable pub aws_root_pem_govcloud : Bytes
unfolding unlines
aws_root_pem_govcloud = unlines (
    codes "-----BEGIN CERTIFICATE-----" ∷ govcloud_lines
    ++ (codes "-----END CERTIFICATE-----" ∷ []))
