-- ===== src/TextUtil.antt =====
-- gateway/textutil.py: long replies are cut into messages of a channel's size.
pub mod Split
