-- ===== src/Tests/VersionTests.antt =====
-- Examples for internal/version.
use deep_seek_web_to_api.Prelude.{◌≡◌, refl, arith}
use deep_seek_web_to_api.Prelude.Int.{pos, negsuc, ◌≤ℤ◌}
use deep_seek_web_to_api.Version.{compare, tag}

older : compare "v2.3.5" " 2.10" ≡ negsuc 0
unfolding compare deep_seek_web_to_api.Version.compare_parts deep_seek_web_to_api.Version.parse
    deep_seek_web_to_api.Version.split_n deep_seek_web_to_api.Version.cut_dot
    deep_seek_web_to_api.Version.normalize deep_seek_web_to_api.Version.trim_v
    deep_seek_web_to_api.Prelude.Text.trim_space deep_seek_web_to_api.Version.read_leading_int
    deep_seek_web_to_api.Version.leading_value
older = refl

oldest : compare "1.9.9-rc" "v2.3.5" ≡ negsuc 0
unfolding compare deep_seek_web_to_api.Version.compare_parts deep_seek_web_to_api.Version.parse
    deep_seek_web_to_api.Version.split_n deep_seek_web_to_api.Version.cut_dot
    deep_seek_web_to_api.Version.normalize deep_seek_web_to_api.Version.trim_v
    deep_seek_web_to_api.Prelude.Text.trim_space deep_seek_web_to_api.Version.read_leading_int
    deep_seek_web_to_api.Version.leading_value
oldest = refl

tags : tag " 1.2" ≡ "v1.2"
unfolding tag deep_seek_web_to_api.Version.normalize deep_seek_web_to_api.Version.trim_v
    deep_seek_web_to_api.Prelude.Text.trim_space
tags = refl

older_le : compare "v2.3.5" " 2.10" ≤ℤ pos 0
older_le = rw older (omega arith)

oldest_le : compare "1.9.9-rc" "v2.3.5" ≤ℤ pos 0
oldest_le = rw oldest (omega arith)
