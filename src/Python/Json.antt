-- ===== src/Python/Json.antt =====
-- `json.dumps(…, ensure_ascii=False)` and `json.loads` on texts of code points.
pub mod Strings
pub mod Numbers
pub mod Values
pub mod Lookup
pub mod Printer
pub mod Parser
pub mod Steps
pub mod Openings
pub mod Entries
pub mod RoundTrip
pub mod Bytes
pub mod Consumption
pub mod Total
mod Tests
