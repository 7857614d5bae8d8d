-- ===== src/Api/Headers.antt =====
-- The headers of a request, as the handlers read them: `headers.get(name).and_then(|v|
-- v.to_str().ok())`, the text of the first header of a name, when it is visible ASCII.
use hzelmaim.Prelude.{Option, String}
use hzelmaim.Prelude.Bytes.{Bytes}

abbrev pub HeaderMap : Type 0
HeaderMap = String → Option Bytes
