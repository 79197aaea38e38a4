-- ===== src/Plagiarism.antt =====
-- core/src/service/plagiarism: fingerprint.ts, similarity.ts and the check of plagiarism.service.ts.
pub mod Fingerprint
pub mod Similarity
pub mod Keywords
pub mod Tokenizer
pub mod Check
mod Renaming
pub mod CodeCheck
mod Grams
mod Winnowing
mod Sets
mod Tables
mod Reports
mod Examples
mod CodeExamples
