-- ===== src/ResourceMerge.antt =====
-- lib/resourcemerge: bringing an object of the cluster to the required one, field by field.
pub mod Values
pub mod Security
pub mod Lists
pub mod Pods
pub mod Configs
