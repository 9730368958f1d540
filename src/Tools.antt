-- ===== src/Tools.antt =====
-- src/tools: the tools that the server brings along, as far as they are modelled.
pub mod System
