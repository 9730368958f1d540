-- ===== src/Server/Redaction/Tests.antt =====
-- Runs of `redact_for_log`.
use intermcp.Prelude.{false, starts_with, to_ascii_lowercase, ◌≡◌, refl, codes}
use intermcp.Server.Redaction.{all_matches, redact_for_log}
use intermcp.Server.Redaction.Ranges.{is_covered}
use intermcp.Server.Redaction.Reference.{mask}
use intermcp.Server.Redaction.Matches.{redact_for_log-mask}

password_hidden : redact_for_log (codes "x password=abcdefghijklm y") ≡ codes "x [REDACTED] y"
unfolding redact_for_log starts_with to_ascii_lowercase
password_hidden = refl

header_hidden :
    redact_for_log (codes "Authorization: Bearer abcdefghij.k\nok") ≡ codes "[REDACTED]\nok"
unfolding redact_for_log starts_with to_ascii_lowercase
header_hidden = refl

short_kept : redact_for_log (codes "token=abc") ≡ codes "token=abc"
unfolding redact_for_log starts_with to_ascii_lowercase
short_kept = refl

redact_for_log-mask_example :
    redact_for_log (codes "secret: abcdefghijklmnop!")
    ≡ mask
        (is_covered (all_matches (codes "secret: abcdefghijklmnop!")))
        false
        0
        (codes "secret: abcdefghijklmnop!")
redact_for_log-mask_example = redact_for_log-mask (codes "secret: abcdefghijklmnop!")
