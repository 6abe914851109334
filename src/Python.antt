-- ===== src/Python.antt =====
-- The codecs of Python's standard library that the services call: `str.encode("utf-8")`,
-- `bytes.decode("utf-8")`, `json.dumps(…, ensure_ascii=False)` and `json.loads`. A text is the list of
-- its code points, and `bytes` is a list of numbers below 256.
pub mod Utf8
pub mod Json
