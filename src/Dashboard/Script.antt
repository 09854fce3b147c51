-- ===== src/Dashboard/Script.antt =====
-- supervictor/endpoint/src/ui/views.rs: the static script of every page.
use super_victor.Prelude.{[], ◌∷◌, ◌++◌}
use super_victor.Prelude.Text.{Text, codes}

abbrev line : Text → Text
line t = t ++ b'\n' ∷ []

unfoldable pub live_script : Text
live_script =
    b'\n' ∷ line (codes "(function () {")
    ++ line (codes "  var dot = document.getElementById('live-dot');")
    ++ line (codes "  var errors = 0;")
    ++ line (codes "  var es = new EventSource('/ui/events');")
    ++ line (
        codes
          "  es.onopen = function () { errors = 0; if (dot) { dot.textContent = 'live'; dot.className = 'connected'; } };")
    ++ line (codes "  es.addEventListener('uplink', function (e) {")
    ++ line (codes "    var ev; try { ev = JSON.parse(e.data); } catch (_) { return; }")
    ++ line (
        codes
          "    var row = document.querySelector('tr[data-device=\"' + CSS.escape(ev.device_id) + '\"]');")
    ++ line (codes "    if (!row) return;")
    ++ line (codes "    var last = row.querySelector('.last-uplink');")
    ++ line (codes "    if (last) last.textContent = ev.received_at;")
    ++ line (codes "    var badge = row.querySelector('.staleness');")
    ++ line (
        codes
          "    if (badge) { badge.textContent = 'fresh'; badge.className = 'badge staleness fresh'; }")
    ++ line (codes "  });")
    ++ line (codes "  es.onerror = function () {")
    ++ line (codes "    errors += 1;")
    ++ line (codes "    if (dot) { dot.textContent = 'offline'; dot.className = ''; }")
    ++ line (
        codes
          "    if (errors >= 3) { es.close(); setTimeout(function () { location.reload(); }, 30000); }")
    ++ line (codes "  };")
    ++ line (codes "})();")
