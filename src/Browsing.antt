-- ===== src/Browsing.antt =====
-- Discovery of file servers by NetBIOS (browsing).
pub mod Packets
pub mod Queries
pub mod QueryLaws
pub mod Responses
pub mod Exactness
pub mod Names
pub mod Answers
pub mod ParseLaws
pub mod AnswerLaws
pub mod Services
pub mod Listening
pub mod ServiceLaws
pub mod ListenLaws
pub mod Repeats
pub mod Consumption
pub mod ParseBounds
